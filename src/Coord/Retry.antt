-- ===== src/Coord/Retry.antt =====
-- src/skcoord/coordination.py: what `_release_claim_locked` makes of the marker of an earlier release.
use skcoord.Prelude.{
  String, ◌≡◌, refl, ap, ◌∙◌, true, false, not, ◌||◌, inl, inr, Option, none, some, List, arith,
  is_set, opt_eq, Bool-cases, if◌then◌else◌, Result, ok, err, ◌>>=◌, value_error, Error,
}
use skcoord.Card.Model.{Card}
use skcoord.Card.Event.{Event}
use skcoord.Card.Fold.{State}
use skcoord.Card.Release.{current_claim_precondition}
use skcoord.Coord.Model.{AgentFile}
use skcoord.Coord.Release.{
  Release, Store, card_of, check_expected, claim_revision, loses, failed, failed, release_held,
}

-- What the checks on the caller's revision raise.
abbrev pub refusal_of : Option String → Error
refusal_of o = value_error (
    if is_set o
    then "claim revision conflict"
    else "exact expected claim revision required to release the conflict")

-- The marker of an earlier release comes only for a claim that the card's owner does not hold.
marker_loses :
    (c : Card) (events : List Event) (owner : String)
    → current_claim_precondition (some c) events owner ≡ ok none
    → opt_eq c.owner (some owner) ≡ false
unfolding current_claim_precondition
marker_loses c events owner h = elim (Bool-cases (opt_eq c.owner (some owner))) [
  | inr other ↦ other
  | inl mine ↦ absurd (unset c.meta.claim_revision (rw mine at h))
]
  where
    unset :
        (o : Option String)
        → (if is_set o then ok o else err (value_error "claim has no revision")) ≡ ok none
        → ⊥
    unset none k = ground (arith)
    unset (some r) k = ground (arith)

-- The checks on the caller's revision refuse the marker, whatever revision the caller expects.
marker_checked :
    (st : Store) (q : Release) (o : Option String)
    → loses st.folded q.owner ≡ true
    → check_expected st (record q { expected_claim_revision = o }) none ≡ err (refusal_of o)
unfolding check_expected
marker_checked st q none lost = ground arith
marker_checked st q (some r) lost = ground arith

marker_refused :
    (st : Store) (s : State) (q : Release)
    → st.folded ≡ some s
    → opt_eq s.card.owner (some q.owner) ≡ false
    → check_expected st q none ≡ err (refusal_of q.expected_claim_revision)
marker_refused st s q folded other =
    marker_checked st q q.expected_claim_revision (rw (folded, other) refl)

marker_unclaimed :
    (st : Store) (s : State) (q : Release)
    → st.folded ≡ some s
    → current_claim_precondition (some s.card) st.events q.owner ≡ ok none
    → claim_revision st q ≡ err (refusal_of q.expected_claim_revision)
unfolding claim_revision
marker_unclaimed st s q folded marker =
    ap
      (λ o.
        current_claim_precondition (card_of o) st.events q.owner >>= λ rev. check_expected st q rev)
      folded
    ∙ ap (λ (r : Result (Option String)). r >>= λ rev. check_expected st q rev) marker
    ∙ marker_refused st s q folded (marker_loses s.card st.events q.owner marker)

-- A retry is no success: where the precondition answers with the marker of a release that was done
-- before, the call raises before it writes anything, whatever revision the caller expects, unless the
-- caller allows a missing store and the card has no core.
pub retry_marker-failed :
    (st : Store) (s : State) (q : Release) (agents : List AgentFile)
    → st.write_enabled ≡ true
    → st.folded ≡ some s
    → (not q.allow_missing_card_store || st.has_core) ≡ true
    → current_claim_precondition (some s.card) st.events q.owner ≡ ok none
    → release_held st q agents ≡ failed (refusal_of q.expected_claim_revision)
unfolding release_held
retry_marker-failed st s q agents enabled folded strict marker =
    rw (marker_unclaimed st s q folded marker, enabled, strict) refl
