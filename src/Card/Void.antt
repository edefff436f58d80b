-- ===== src/Card/Void.antt =====
-- src/skcoord/card_store.py: a void is a terminal decision.
use skcoord.Prelude.{
  ◌≡◌, true, false, none, List, arith, ok, >>=-eq-ok, Bool-cases, ◌⊎◌, ◌∙◌, subst, inl, inr,
}
use skcoord.Card.Model.{Column, Card, Core}
use skcoord.Card.Event.{Event, Action, action_of, is_void_terminal}
use skcoord.Card.Claim.{apply_void, apply_archive}
use skcoord.Card.Runs.{apply_run_request, apply_run_claim, apply_run_activity, apply_run_state}
use skcoord.Card.Fold.{State, apply, advance, step, run, birth, fold_events}
use skcoord.Card.Rounds.{Skipped, Applied, advance_cases, run_keeps}

-- What a voided card is held to.
pub record IsVoided (c : Card) : Type 0 where
  pub owner : c.owner ≡ none
  pub archived : c.archived ≡ true
  pub revision : c.meta.claim_revision ≡ none
  pub marked : c.meta.voided ≡ true

-- The branches that a voided card still takes leave its ownership, its column and its marks alone.
apply_kept :
    (a : Action) (c : Card) (e : Event) {d : Card}
    → is_void_terminal a ≡ false
    → apply a c e ≡ ok d
    → IsVoided c
    → IsVoided d × (d.status ≡ c.status)
unfolding apply apply_void apply_archive apply_run_request apply_run_claim apply_run_activity
    apply_run_state
apply_kept Action.void c e t h v = ground arith
apply_kept _ c e t h v = ground arith

void_made :
    (c : Card) (e : Event) {d : Card}
    → apply Action.void c e ≡ ok d
    → IsVoided d × (d.status ≡ c.status)
unfolding apply apply_void
void_made c e h = ground arith

-- The invariant of the loop.
abbrev Held : State → Type 0
Held s = s.voided ≡ true → IsVoided s.card

-- A round from a voided state.
round_held :
    (a : Action) (s : State) (e : Event) {t : State}
    → s.voided ≡ true
    → IsVoided s.card
    → Skipped a s e t ⊎ Applied a s e t
    → IsVoided t.card × (t.card.status ≡ s.card.status)
round_held a s e p v (inl (_, _, q)) = ground arith
round_held a s e p v (inr (c, live, made, q)) =
    let (kept, column) = apply_kept a s.card e (ground arith) made v in ground arith

-- A round from a state that is not voided ends in one only by the void.
round_void :
    (a : Action) (s : State) (e : Event) {t : State}
    → s.voided ≡ false
    → t.voided ≡ true
    → Skipped a s e t ⊎ Applied a s e t
    → IsVoided t.card
round_void a s e p q (inl (r, _, _)) = cc
round_void Action.void s e p q (inr (c, live, made, r)) =
    let (v, _) = void_made s.card e made in ground arith
round_void _ s e p q (inr (c, live, made, r)) = ground arith

round_keeps : (a : Action) (s t : State) (e : Event) → Held s → advance a s e ≡ ok t → Held t
round_keeps a s t e held h voided = elim (Bool-cases s.voided) [
  | inl old ↦ (round_held a s e old (held old) (advance_cases a s e h)).0
  | inr new ↦ round_void a s e new voided (advance_cases a s e h)
]

-- Whatever events the log of a card holds, a fold that has met a void returns a card with no owner
-- and no claim, archived and marked as voided.
pub voided_card :
    (core : Core) (events : List Event) {t : State}
    → fold_events core events ≡ ok t
    → t.voided ≡ true
    → IsVoided t.card
unfolding fold_events
voided_card core events h =
    let (c, _, ran) = >>=-eq-ok (birth core) _ h in
    run_keeps Held round_keeps (record { card = c; voided = false }) events (λ p. cc) ran

-- What a void fixes: the flag, the marks and the column.
record Frozen (column : Column) (s : State) : Type 0 where
  voided : s.voided ≡ true
  card : IsVoided s.card
  column_kept : s.card.status ≡ column

round-Frozen :
    (column : Column) (a : Action) (s t : State) (e : Event)
    → Frozen column s
    → advance a s e ≡ ok t
    → Frozen column t
round-Frozen column a s t e f h =
    let (v, same) = round_held a s e f.voided f.card (advance_cases a s e h) in
    record {
      voided = stays_voided a s e f.voided (advance_cases a s e h);
      card = v;
      column_kept = same ∙ f.column_kept;
    }
  where
    stays_voided :
        (b : Action) (u : State) (x : Event) {w : State}
        → u.voided ≡ true
        → Skipped b u x w ⊎ Applied b u x w
        → w.voided ≡ true
    stays_voided b u x p (inl (_, _, q)) = ground arith
    stays_voided b u x p (inr (_, _, _, q)) = ground arith

round_enters :
    (s : State) (e : Event) {t : State}
    → Skipped Action.void s e t ⊎ Applied Action.void s e t
    → Frozen s.card.status t
round_enters s e (inl (_, terminal, _)) = cc
round_enters s e (inr (c, _, made, q)) =
    let (v, same) = void_made s.card e made in
    record { voided = ground arith; card = ground arith; column_kept = ground arith }

-- A void is terminal: no later event gives the card an owner or a claim, takes it out of the archive,
-- or moves it to another column.
pub void_is_terminal :
    (s : State) (void : Event) (later : List Event) {u t : State}
    → action_of void.action ≡ Action.void
    → step s void ≡ ok u
    → run u later ≡ ok t
    → (t.voided ≡ true) × IsVoided t.card × (t.card.status ≡ s.card.status)
unfolding step
void_is_terminal s void later {u} is_void h ran =
    let entered =
      round_enters s void
        (advance_cases Action.void s void (subst (λ a. advance a s void ≡ ok u) is_void h)) in
    let f = run_keeps (Frozen s.card.status) (round-Frozen s.card.status) u later entered ran in
    (f.voided, f.card, f.column_kept)
