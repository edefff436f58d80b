-- ===== src/Card/Totality.antt =====
-- src/skcoord/card_store.py: when `CardStore.fold` raises.
use skcoord.Prelude.{
  String, ◌≡◌, refl, ap, ◌∙◌, Bool, true, false, ◌&&◌, Option, none, some, List, [], ◌∷◌, arith,
  is_set, is_some, is_ok, all_of, Result, ok, err, ◌>>=◌,
}
use skcoord.Card.Model.{Card, Core}
use skcoord.Card.Event.{Event, Action, action_of}
use skcoord.Card.Fold.{State, well_formed_criteria, apply, advance, step, run, birth, fold_events}

-- An event that the fold can apply: any but a malformed criteria amendment.
abbrev pub is_applicable : Action → Event → Bool
is_applicable Action.amend_criteria e = well_formed_criteria e.criteria
is_applicable _ e = true

apply-is_ok : (a : Action) (c : Card) (e : Event) → is_ok (apply a c e) ≡ is_applicable a e
unfolding apply
apply-is_ok Action.amend_criteria c e = ground arith
apply-is_ok _ c e = refl

advance-is_ok : (a : Action) (s : State) (e : Event) → is_ok (advance a s e) ≡ is_applicable a e
unfolding advance
advance-is_ok Action.amend_criteria s e = ground (arith, apply-is_ok Action.amend_criteria s.card e)
advance-is_ok a s e = ground (arith, apply-is_ok a s.card e)

step-is_ok : (s : State) (e : Event) → is_ok (step s e) ≡ is_applicable (action_of e.action) e
unfolding step
step-is_ok s e = advance-is_ok (action_of e.action) s e

bind-is_ok :
    (m : Result State) (f : State → Result State) (b : Bool)
    → ((s : State) → is_ok (f s) ≡ b)
    → is_ok (m >>= f) ≡ (is_ok m && b)
bind-is_ok (ok s) f b h = h s
bind-is_ok (err x) f b h = refl

run-is_ok :
    (s : State) (events : List Event)
    → is_ok (run s events) ≡ all_of (λ e. is_applicable (action_of e.action) e) events
unfolding run
run-is_ok s [] = refl
run-is_ok s (e ∷ events) =
    bind-is_ok (step s e) (λ t. run t events) _ (λ t. run-is_ok t events)
    ∙ ap (λ b. b && all_of (λ (x : Event). is_applicable (action_of x.action) x) events)
        (step-is_ok s e)

-- The birth facts are sound: there is an id, and an owner comes with a claim revision.
abbrev pub owner_backed : Option String → Option String → Bool
owner_backed none revision = true
owner_backed (some owner) revision = is_set revision

birth-is_ok :
    (core : Core)
    → is_ok (birth core)
      ≡ (is_some core.id && owner_backed core.initial_owner core.initial_claim_revision)
unfolding birth
birth-is_ok core = ground arith

-- The fold of a card raises in exactly three cases: the birth facts have no id, they name an owner
-- with no claim revision, or the log holds a malformed criteria amendment.
pub fold_events-is_ok :
    (core : Core) (events : List Event)
    → is_ok (fold_events core events) ≡ (
        is_some core.id
        && owner_backed core.initial_owner core.initial_claim_revision
        && all_of (λ e. is_applicable (action_of e.action) e) events)
unfolding fold_events
fold_events-is_ok core events =
    bind_card (birth core) ∙ ap (λ b. b && applicable) (birth-is_ok core)
  where
    applicable : Bool
    applicable = all_of (λ (e : Event). is_applicable (action_of e.action) e) events

    bind_card :
        (m : Result Card)
        → is_ok (m >>= λ c. run (record { card = c; voided = false }) events)
          ≡ (is_ok m && applicable)
    bind_card (ok c) = run-is_ok _ events
    bind_card (err x) = refl
