-- ===== src/Board/Agreement.antt =====
-- src/skcoord/card.py and src/skcoord/card_store.py: the overlay is folded twice, by the board and
-- by the card store. Where the two agree on a card.
use skcoord.Prelude.{
  look_up-put, inl, inr, String, ◌≡◌, refl, sym, ap, ◌∙◌, subst, Bool, true, false, Option, none,
  some, get_or, List, [], ◌∷◌, foldl, arith, ◌==◌, eq_iff, All, is_some, is_set, is_blank, truthy,
  ok, if◌then◌else◌, Bool-cases, look_up,
}
use skcoord.Card.Model.{parse_column, Card}
use skcoord.Card.Event.{Event}
use skcoord.Card.Claim.{apply_move, apply_assign, apply_unassign}
use skcoord.Card.Fold.{
  State, apply, apply_add_label, apply_remove_label, apply_link, apply_describe, advance, step, run,
}
use skcoord.Board.Overlay.{
  CardEvent, Action, move, set_priority, set_swimlane, assign, unsupported, action_of, store_action,
  synthetic, store_event, legacy_events, not_after, insert, sorted,
}
use skcoord.Board.Validate.{lacks_payload, validate_action, validate_overlay_event}
use skcoord.Board.Patch.{
  Patch, blank, patch_action, patch_event, overlay_event, fold_overlay, apply_patch, on_board,
}

abbrev pub is_known_column : Option String → Bool
is_known_column none = true
is_known_column (some name) = is_some (parse_column name)

-- The event passed the validation, and if it names a column, then one that there is.
abbrev pub Sound : CardEvent → Type 0
Sound e = (validate_overlay_event e false ≡ ok tt) × (is_known_column e.column ≡ true)

-- Two cards with the same column, place, priority, lane, owner, title and description.
pub record Agrees (c d : Card) : Type 0 where
  pub status : c.status ≡ d.status
  pub order : c.order ≡ d.order
  pub priority : c.priority ≡ d.priority
  pub swimlane : c.swimlane ≡ d.swimlane
  pub owner : c.owner ≡ d.owner
  pub title : c.title ≡ d.title
  pub description : c.description ≡ d.description

-- The store's card stands where the patch takes the card.
record Follows (c : Card) (p : Patch) (d : Card) : Type 0 where
  known : is_known_column p.column ≡ true
  agrees : Agrees (apply_patch c p) d

abbrev live : Card → State
live d = record { card = d; voided = false }

not_blank-truthy : (s : String) → is_blank s ≡ false → truthy s ≡ true
unfolding is_blank
not_blank-truthy s h = elim (Bool-cases (s == "")) [
  | inl empty ↦ absurd (ground (arith, subst (λ t. is_blank t ≡ false) ((eq_iff s "").0 empty) h))
  | inr full ↦ ground arith
]

given-is_set : (o : Option String) → is_blank (get_or o "") ≡ false → is_set o ≡ true
unfolding is_blank
given-is_set none h = cc
given-is_set (some s) h = not_blank-truthy s h

given_payload :
    (a : Action) (e : CardEvent) → validate_action a false e ≡ ok tt → lacks_payload a e ≡ false
unfolding validate_action
given_payload a e h = ground arith

-- The store's event for an action that it knows.
abbrev translated : Action → CardEvent → Event
translated a e = synthetic (get_or (store_action a) "") e

-- One round of both folds.
follow :
    (a : Action) (c : Card) (p : Patch) (d : Card) (e : CardEvent)
    → lacks_payload a e ≡ false
    → is_known_column e.column ≡ true
    → is_some (store_action a) ≡ true
    → Follows c p d
    → (next : Card) × (step (live d) (translated a e) ≡ ok (live next))
      × Follows c (patch_action a p e) next
unfolding step advance skcoord.Card.Event.action_of apply apply_move apply_assign apply_unassign
    apply_add_label apply_remove_label apply_link apply_describe patch_action apply_patch
    lacks_payload
follow move c p d e given known is_x f = (_, refl, ground arith)
follow set_priority c p d e given known is_x f = (_, refl, ground (arith, given-is_set e.priority))
follow set_swimlane c p d e given known is_x f = (_, refl, ground (arith, given-is_set e.swimlane))
follow assign c p d e given known is_x f = (_, refl, ground (arith, given-is_set e.owner))
follow unsupported c p d e given known is_x f = cc
follow _ c p d e given known is_x f = (_, refl, ground arith)

-- The event is one of the card's own.
abbrev own : String → CardEvent → Bool
own id e = e.card_id == id

supported :
    (a : Action) (e : CardEvent)
    → validate_action a false e ≡ ok tt
    → is_some (store_action a) ≡ true
unfolding validate_action
supported a e h = ground arith

-- What the board's patch of a card folds to, over the events of that card alone.
unfoldable patch_from : Patch → String → List CardEvent → Patch
patch_from p id [] = p
patch_from p id (e ∷ events) = patch_from (if own id e then patch_event p e else p) id events

translate :
    (a : Action) (e : CardEvent)
    → is_some (store_action a) ≡ true
    → elim (store_action a) as (λ x. Option Event) [ none ↦ none | some x ↦ some (synthetic x e) ]
      ≡ some (translated a e)
translate a e h = ground arith

store_event-some :
    (e : CardEvent)
    → is_some (store_action (action_of e.action)) ≡ true
    → store_event e ≡ some (translated (action_of e.action) e)
unfolding store_event
store_event-some e h = translate (action_of e.action) e h

legacy_own :
    (id : String) (e : CardEvent) (events : List CardEvent)
    → is_some (store_action (action_of e.action)) ≡ true
    → own id e ≡ true
    → legacy_events id (e ∷ events) ≡ translated (action_of e.action) e ∷ legacy_events id events
unfolding legacy_events
legacy_own id e events h mine = rw (mine, store_event-some e h) refl

run_first :
    (s : State) (x : Event) (xs : List Event) {t u : State}
    → step s x ≡ ok t
    → run t xs ≡ ok u
    → run s (x ∷ xs) ≡ ok u
unfolding run
run_first s x xs p q = rw p q

both :
    (id : String) (c : Card) (p : Patch) (d : Card) (events : List CardEvent)
    → All Sound events
    → Follows c p d
    → (last : Card) × (run (live d) (legacy_events id events) ≡ ok (live last))
      × Follows c (patch_from p id events) last
unfolding run legacy_events patch_from patch_event validate_overlay_event
both id c p d [] h f = (d, refl, f)
both id c p d (e ∷ events) ((sound, known), hs) f = elim (Bool-cases (own id e)) [
  | inl mine ↦
      let known_action = supported (action_of e.action) e sound in
      let (next, moved, g) =
        follow (action_of e.action) c p d e (given_payload (action_of e.action) e sound) known
          known_action f in
      let (last, ran, k) = both id c (patch_event p e) next events hs g in
      (
        last,
        ap (run (live d)) (legacy_own id e events known_action mine)
            ∙ run_first (live d) (translated (action_of e.action) e) (legacy_events id events) moved
                ran,
        rw mine k,
      )
  | inr other ↦ rw other (both id c p d events hs f)
]

abbrev patch_of : String → List (String × Patch) → Patch
patch_of id overlay = get_or (look_up id overlay) blank

patch_of-put :
    (id : String) (overlay : List (String × Patch)) (e : CardEvent)
    → patch_of id (overlay_event overlay e)
      ≡ (if own id e then patch_event (patch_of id overlay) e else patch_of id overlay)
unfolding overlay_event
patch_of-put id overlay e = elim (Bool-cases (own id e)) [
  | inl same ↦
      rw (look_up-put e.card_id id (patch_event (patch_of e.card_id overlay) e) overlay, same)
        (ap (λ k. patch_event (patch_of k overlay) e) ((eq_iff e.card_id id).0 same))
  | inr other ↦
      rw (look_up-put e.card_id id (patch_event (patch_of e.card_id overlay) e) overlay, other) refl
]

foldl-patch_of :
    (id : String) (overlay : List (String × Patch)) (events : List CardEvent)
    → patch_of id (foldl overlay_event overlay events) ≡ patch_from (patch_of id overlay) id events
unfolding patch_from
foldl-patch_of id overlay [] = refl
foldl-patch_of id overlay (e ∷ events) =
    foldl-patch_of id (overlay_event overlay e) events
    ∙ ap (λ p. patch_from p id events) (patch_of-put id overlay e)

insert-All :
    (e : CardEvent) (events : List CardEvent)
    → Sound e
    → All Sound events
    → All Sound (insert e events)
unfolding insert
insert-All e [] h hs = (h, tt)
insert-All e (f ∷ events) h (k, ks) = elim (Bool-cases (not_after e f)) [
  | inl first ↦ rw first (h, (k, ks))
  | inr after ↦ rw after (k, insert-All e events h ks)
]

sorted-All : (events : List CardEvent) → All Sound events → All Sound (sorted events)
unfolding sorted
sorted-All [] h = tt
sorted-All (e ∷ events) (h, hs) = insert-All e (sorted events) h (sorted-All events hs)

on_board-Agrees :
    (c : Card) (overlay : List (String × Patch)) (d : Card)
    → Follows c (patch_of c.id overlay) d
    → Agrees (on_board overlay false c) d
unfolding on_board apply_patch
on_board-Agrees c overlay d f = shown (look_up c.id overlay) f
  where
    shown :
        (o : Option Patch)
        → Follows c (get_or o blank) d
        → Agrees (elim o as (λ x. Card) [ none ↦ c | some p ↦ apply_patch c p ]) d
    shown none g = record {
      status = g.agrees.status;
      order = g.agrees.order;
      priority = g.agrees.priority;
      swimlane = g.agrees.swimlane;
      owner = g.agrees.owner;
      title = g.agrees.title;
      description = g.agrees.description;
    }
    shown (some p) g = g.agrees

-- The board and the store see one overlay alike: if every overlay event passes the validation and
-- names no unknown column, then the store's fold of the card's events raises nothing, and its card
-- has the column, place, priority, lane, owner, title and description that the board shows.
pub board_and_store :
    (c : Card) (events : List CardEvent)
    → All Sound events
    → (d : Card) × (run (record { card = c; voided = false }) (legacy_events c.id (sorted events))
        ≡ ok (record { card = d; voided = false }))
      × Agrees (on_board (fold_overlay events) false c) d
unfolding fold_overlay look_up apply_patch
board_and_store c events h =
    let (d, ran, f) = both c.id c blank c (sorted events) (sorted-All events h) start_alike in
    (
      d,
      ran,
      on_board-Agrees c (fold_overlay events) d
          (subst (λ p. Follows c p d) (sym (foldl-patch_of c.id [] (sorted events))) f),
    )
  where
    start_alike : Follows c blank c
    start_alike = record {
      known = refl;
      agrees = record {
        status = refl;
        order = refl;
        priority = refl;
        swimlane = refl;
        owner = refl;
        title = refl;
        description = refl;
      };
    }
