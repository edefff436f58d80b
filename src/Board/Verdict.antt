-- ===== src/Board/Verdict.antt =====
-- src/skcoord/card.py and src/skcoord/card_store.py: verdicts in the overlay.
use skcoord.Prelude.{
  String, ◌≡◌, refl, ◌==◌, eq_iff, true, false, Option, none, some, arith, put, get_or, ok, is_some,
  subst, sym, ap,
}
use skcoord.Card.Model.{Card}
use skcoord.Card.Event.{Event}
use skcoord.Card.Fold.{apply, apply_link, advance, step}
use skcoord.Board.Overlay.{CardEvent, verdict, action_of, store_action, synthetic, store_event}
use skcoord.Board.Validate.{lacks_payload, validate_action, validate_overlay_event}
use skcoord.Board.Patch.{Patch, patch_action, patch_event}

-- What a verdict does to a patch of the board and to a card of the store.
abbrev pub Split : Patch → CardEvent → Card → Event → Type 0
Split p e d x =
    (patch_event p e ≡ p)
    × (is_some e.link_value ≡ true)
    × ((next : Card) × (step (record { card = d; voided = false }) x
          ≡ ok (record { card = next; voided = false }))
        × (next.links ≡ put "verdict" e.link_value d.links))

key_named : (key : Option String) → (get_or key "" == "verdict") ≡ true → key ≡ some "verdict"
key_named none h = cc
key_named (some k) h = ap some ((eq_iff k "verdict").0 h)

verdict_payload :
    (e : CardEvent)
    → validate_action verdict false e ≡ ok tt
    → (e.link_key ≡ some "verdict") × (is_some e.link_value ≡ true)
unfolding validate_action lacks_payload
verdict_payload e h = (key_named e.link_key (ground arith), ground arith)

stored :
    (e : CardEvent) (d : Card)
    → e.link_key ≡ some "verdict"
    → (next : Card) × (step (record { card = d; voided = false }) (synthetic "link" e)
        ≡ ok (record { card = next; voided = false }))
      × (next.links ≡ put "verdict" e.link_value d.links)
unfolding step advance skcoord.Card.Event.action_of apply apply_link
stored e d key = (_, refl, rw key refl)

-- A verdict that passes the validation is folded by the store and not by the board: the store's card
-- has it among its links, and the board's patch stays as it was.
pub verdict_unseen :
    (p : Patch) (e : CardEvent) (d : Card)
    → action_of e.action ≡ verdict
    → validate_overlay_event e false ≡ ok tt
    → (x : Event) × (store_event e ≡ some x) × Split p e d x
unfolding patch_event validate_overlay_event store_event patch_action
verdict_unseen p e d is_verdict h =
    let (key, value) =
      verdict_payload e (subst (λ a. validate_action a false e ≡ ok tt) is_verdict h) in
    (
      synthetic "link" e,
      subst
          (λ a.
            elim (store_action a) as (λ _. Option Event) [
              | none ↦ none
              | some action ↦ some (synthetic action e)
            ]
            ≡ some (synthetic "link" e))
          (sym is_verdict) refl,
      (subst (λ a. patch_action a p e ≡ p) (sym is_verdict) refl, value, stored e d key),
    )
