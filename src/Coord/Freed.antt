-- ===== src/Coord/Freed.antt =====
-- src/skcoord/coordination.py: a mirrored release reaches the state that it is checked against.
use skcoord.Prelude.{
  String, ◌≡◌, refl, sym, ap, ◌∙◌, subst, Bool, true, false, not, ◌||◌, inl, inr, Option, none,
  some, List, [], ◌∷◌, arith, eq_iff, is_set, truthy, opt_eq, keep_if, eq_of_opt_eq, opt_eq_refl,
  Bool-cases, if◌then◌else◌, Result, ok, err, >>=-eq-ok,
}
use skcoord.Card.Model.{Conflict, Card, column_value}
use skcoord.Card.Event.{Event, Action, action_of, is_void_terminal}
use skcoord.Card.Claim.{matches, apply_release, against_current}
use skcoord.Card.Fold.{State, apply, advance, step}
use skcoord.Card.Release.{
  conflicts_of, conflict_revision, by_conflict, current_claim_precondition, release_event,
}
use skcoord.Card.Races.{one_left, given_current}
use skcoord.Coord.Model.{AgentFile}
use skcoord.Coord.Release.{
  Release, Store, card_of, check_expected, claim_revision, same_conflicts, release_is_applied,
  Released, failed, released, uncertain, mirrored, release_held,
}

same_conflicts_refl : (l : List Conflict) → same_conflicts l l ≡ true
same_conflicts_refl [] = refl
same_conflicts_refl (x ∷ l) = ground (
  arith,
  same_conflicts_refl l,
  opt_eq_refl x.event_id,
  eq_iff x.owner x.owner,
  opt_eq_refl x.claim_revision,
  opt_eq_refl x.existing_owner,
  opt_eq_refl x.existing_claim_revision,
)

abbrev pub event_of : Release → String → Event
event_of q revision = record (skcoord.Card.Event.bare "release_claim") {
  writer = some q.actor;
  released_owner = some q.owner;
  expected_claim_revision = some revision;
}

-- The release of the card's own claim, and the check behind it.
applied_mine :
    (c : Card) (q : Release) (revision : String)
    → truthy q.owner ≡ true
    → truthy revision ≡ true
    → c.owner ≡ some q.owner
    → c.meta.claim_revision ≡ some revision
    → release_is_applied c (apply_release c (event_of q revision)) q.owner revision ≡ true
unfolding apply_release release_is_applied
applied_mine c q revision named set mine rev =
    ground (arith, eq_iff q.owner q.owner, eq_iff revision revision)

-- What the release of a lost claim leaves of the card.
abbrev struck : Card → List Conflict → Card
struck c l = record c { meta = record (c.meta) { claim_conflicts = l } }

abbrev others : Card → Release → String → List Conflict
others c q revision =
    keep_if (λ x. not (matches (some q.owner) (some revision) x)) c.meta.claim_conflicts

strikes :
    (c : Card) (q : Release) (revision : String) (x : Conflict)
    → truthy q.owner ≡ true
    → opt_eq c.owner (some q.owner) ≡ false
    → is_set (some revision) ≡ true
    → against_current c (x ∷ []) ≡ true
    → keep_if (matches (some q.owner) (some revision)) c.meta.claim_conflicts ≡ x ∷ []
    → apply_release c (event_of q revision) ≡ struck c (others c q revision)
unfolding apply_release
strikes c q revision x named other whole current found = rw (other, found) (ground arith)

applied_lost :
    (c : Card) (q : Release) (revision : String) (x : Conflict)
    → truthy q.owner ≡ true
    → opt_eq c.owner (some q.owner) ≡ false
    → conflicts_of q.owner c.meta.claim_conflicts ≡ x ∷ []
    → conflict_revision c x ≡ ok (some revision)
    → release_is_applied c (apply_release c (event_of q revision)) q.owner revision ≡ true
unfolding release_is_applied
applied_lost c q revision x named other single given =
    let (whole, exact, current) = given_current c x given in
    let (found, left) = one_left q.owner revision c.meta.claim_conflicts x single exact in
    subst (λ d. release_is_applied c d q.owner revision ≡ true)
      (sym (strikes c q revision x named other whole current found))
      (rw (other, found)
        (ground (
          arith,
          opt_eq_refl c.owner,
          opt_eq_refl c.meta.claim_revision,
          same_conflicts_refl (others c q revision),
          eq_iff (column_value c.status) (column_value c.status),
        )))

-- The three ways to a revision.
applied_of :
    (c : Card) (events : List Event) (q : Release) (revision : String) (l : List Conflict)
    → truthy q.owner ≡ true
    → opt_eq c.owner (some q.owner) ≡ false
    → conflicts_of q.owner c.meta.claim_conflicts ≡ l
    → by_conflict c events q.owner l ≡ ok (some revision)
    → release_is_applied c (apply_release c (event_of q revision)) q.owner revision ≡ true
applied_of c events q revision [] named other p h = absurd (ground arith)
applied_of c events q revision (x ∷ []) named other p h =
    applied_lost c q revision x named other p h
applied_of c events q revision (x ∷ y ∷ l) named other p h = cc

pub precondition-applied :
    (c : Card) (events : List Event) (q : Release) (revision : String)
    → truthy q.owner ≡ true
    → current_claim_precondition (some c) events q.owner ≡ ok (some revision)
    → release_is_applied c (apply_release c (event_of q revision)) q.owner revision ≡ true
unfolding current_claim_precondition
precondition-applied c events q revision named h =
    elim (Bool-cases (opt_eq c.owner (some q.owner))) [
      | inl mine ↦
          applied_mine c q revision named (ground arith) (eq_of_opt_eq c.owner (some q.owner) mine)
            (ground arith)
      | inr other ↦ applied_of c events q revision _ named other refl (rw other at h)
    ]

stepped :
    (s : State) (q : Release) (revision : String)
    → s.voided ≡ false
    → step s (event_of q revision)
      ≡ ok (record { card = apply_release s.card (event_of q revision); voided = false })
unfolding step advance action_of apply
stepped s q revision live =
    subst
      (λ b.
        step (record { card = s.card; voided = b }) (event_of q revision)
        ≡ ok (record { card = apply_release s.card (event_of q revision); voided = false }))
      (sym live) refl

-- A release that is mirrored, on a card that is not voided, with a revision that the precondition gave.
mirrored-released :
    (s : State) (events : List Event) (q : Release) (agents : List AgentFile) (revision : String)
    → truthy q.owner ≡ true
    → s.voided ≡ false
    → current_claim_precondition (some s.card) events q.owner ≡ ok (some revision)
    → mirrored s q agents (some revision) ≡ released agents (some (event_of q revision))
unfolding mirrored release_event
mirrored-released s events q agents revision named live h =
    ap
      (λ (r : Result State). elim r as (λ _. Released) [
        | err x ↦ uncertain
        | ok t ↦
            if release_is_applied s.card t.card q.owner revision
            then released agents (some (event_of q revision))
            else uncertain
      ])
      (stepped s q revision live)
    ∙ ap (λ (b : Bool). if b then released agents (some (event_of q revision)) else uncertain)
        (precondition-applied s.card events q revision named h)

-- The caller's checks pass a revision on as it is.
passed_on :
    (st : Store) (q : Release) (rev : Option String) {o : Option String}
    → check_expected st q rev ≡ ok o
    → rev ≡ o
unfolding check_expected
passed_on st q rev h = ground arith

-- The release of a held claim, once its revision is known.
held_by :
    (st : Store) (q : Release) (agents : List AgentFile) (rev : Option String)
    → st.write_enabled ≡ true
    → claim_revision st q ≡ ok rev
    → release_held st q agents
      ≡ elim st.folded as (λ _. Released) [ none ↦ uncertain | some t ↦ mirrored t q agents rev ]
unfolding release_held
held_by st q agents rev enabled h =
    ap (λ (b : Bool). if not b then released agents none else answer (claim_revision st q)) enabled
    ∙ ap answer h
  where
    answer : Result (Option String) → Released
    answer (err x) =
        if (not q.allow_missing_card_store || st.has_core) then failed x else released agents none
    answer (ok o) = elim st.folded as (λ _. Released) [
      | none ↦ uncertain
      | some t ↦ mirrored t q agents o
    ]

precondition_of :
    (st : Store) (s : State) (q : Release) {revision : String}
    → st.folded ≡ some s
    → claim_revision st q ≡ ok (some revision)
    → current_claim_precondition (some s.card) st.events q.owner ≡ ok (some revision)
unfolding claim_revision
precondition_of st s q {revision} folded h =
    let (rev, given, checked) =
      >>=-eq-ok (current_claim_precondition (card_of st.folded) st.events q.owner)
        (λ r. check_expected st q r) h in
    subst (λ o. current_claim_precondition (card_of o) st.events q.owner ≡ ok (some revision))
      folded
      (subst (λ r. current_claim_precondition (card_of st.folded) st.events q.owner ≡ ok r)
        (passed_on st q rev checked) given)

-- A release of a held claim that passes the checks on its revision never ends in the RuntimeError: on a
-- card that is not voided, with the release event merged last, the store's fold reaches the state that
-- the call checks for, and the event is appended behind the agent files as they were given.
pub held-released :
    (st : Store) (s : State) (q : Release) (agents : List AgentFile) {revision : String}
    → truthy q.owner ≡ true
    → st.write_enabled ≡ true
    → st.folded ≡ some s
    → s.voided ≡ false
    → claim_revision st q ≡ ok (some revision)
    → release_held st q agents ≡ released agents (some (event_of q revision))
unfolding release_held
held-released st s q agents {revision} named enabled folded live h =
    held_by st q agents (some revision) enabled h
    ∙ ap
        (λ (o : Option State). elim o as (λ _. Released) [
          | none ↦ uncertain
          | some t ↦ mirrored t q agents (some revision)
        ])
        folded
    ∙ mirrored-released s st.events q agents revision named live (precondition_of st s q folded h)
