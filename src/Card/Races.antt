-- ===== src/Card/Races.antt =====
-- src/skcoord/card_store.py: two agents claim one card, and how the loser lets go.
use skcoord.Prelude.{
  opt_eq_comm, eq_of_opt_eq, String, ◌≡◌, refl, true, false, not, ◌⊎◌, inl, inr, Option, none, some,
  List, [], ◌∷◌, arith, ◌==◌, eq_iff, is_set, opt_eq, keep_if, ok, err, value_error, if◌then◌else◌,
  Bool-cases,
}
use skcoord.Card.Model.{backlog, doing, Conflict, Card}
use skcoord.Card.Event.{Event}
use skcoord.Card.Claim.{
  apply_release, apply_claim, releases_current, releases_conflict, new_revision, matches,
  against_current,
}
use skcoord.Card.Release.{conflicts_of, conflict_revision, by_conflict, current_claim_precondition}

-- A race for a free card in the backlog.
pub record Race (c : Card) (first second : Event) (a b : String) : Type 0 where
  pub free : c.owner ≡ none
  pub waiting : c.status ≡ backlog
  pub named : first.owner ≡ some a
  pub rival : second.owner ≡ some b
  pub named_set : (a == "") ≡ false
  pub rival_set : (b == "") ≡ false
  pub distinct : (a == b) ≡ false

-- The entry that the loser leaves.
abbrev pub lost : Card → Event → String → Option String → Conflict
lost c second b winner = record {
  event_id = second.event_id;
  owner = b;
  claim_revision = second.claim_revision;
  existing_owner = winner;
  existing_claim_revision = c.meta.claim_revision;
}

-- Of two claims, by two different agents, on a free card in the backlog the first in the merged order
-- wins: its agent owns the card, with its revision, the card is in doing, and the second is kept as the one conflict, against the first's claim.
pub first_claim_wins :
    (c : Card) (first second : Event) (a b : String)
    → Race c first second a b
    → ((apply_claim (apply_claim c first) second).owner ≡ some a)
      × ((apply_claim (apply_claim c first) second).status ≡ doing)
      × ((apply_claim (apply_claim c first) second).meta.claim_revision
          ≡ (if is_set (new_revision first) then new_revision first else none))
      × ((apply_claim (apply_claim c first) second).meta.claim_conflicts
          ≡ lost (apply_claim c first) second b (some a) ∷ [])
unfolding apply_claim
first_claim_wins c first second a b r = (ground arith, ground arith, ground arith, ground arith)

module _ (owner rev : String) where
  -- No conflict of the owner, so none that names owner and revision.
  none_left :
      (l : List Conflict)
      → conflicts_of owner l ≡ []
      → (keep_if (matches (some owner) (some rev)) l ≡ [])
        × (conflicts_of owner (keep_if (λ x. not (matches (some owner) (some rev) x)) l) ≡ [])
  none_left [] h = (refl, refl)
  none_left (x ∷ l) h = ground (arith, none_left l)

  pub one_left :
      (l : List Conflict) (x : Conflict)
      → conflicts_of owner l ≡ x ∷ []
      → x.claim_revision ≡ some rev
      → (keep_if (matches (some owner) (some rev)) l ≡ x ∷ [])
        × (conflicts_of owner (keep_if (λ x. not (matches (some owner) (some rev) x)) l) ≡ [])
  one_left [] x h same = absurd (ground arith)
  one_left (y ∷ l) x h same = ground (arith, none_left l, one_left l x, eq_iff rev rev)

-- The release that the caller goes on to append.
pub record Releases (e : Event) (owner rev : String) : Type 0 where
  pub names_owner : e.released_owner ≡ some owner
  pub names_revision : e.expected_claim_revision ≡ some rev

-- The release took effect: it freed the card of its owner, or it struck out the owner's conflict and
-- left the card with the owner that it had.
abbrev pub Effective : Card → Card → String → Type 0
Effective c d owner =
    (d.meta.release_conflicts ≡ c.meta.release_conflicts)
      × (c.owner ≡ some owner)
      × (d.owner ≡ none)
      × (d.status ≡ backlog)
      × (d.meta.claim_revision ≡ none)
    ⊎ (d.meta.release_conflicts ≡ c.meta.release_conflicts)
      × (d.owner ≡ c.owner)
      × (conflicts_of owner d.meta.claim_conflicts ≡ [])

release_current :
    (c : Card) (e : Event) (owner rev : String)
    → (owner == "") ≡ false
    → c.owner ≡ some owner
    → is_set c.meta.claim_revision ≡ true
    → c.meta.claim_revision ≡ some rev
    → Releases e owner rev
    → Effective c (apply_release c e) owner
unfolding apply_release
release_current c e owner rev real mine set same r = inl (
  ground (arith, eq_iff owner owner, eq_iff rev rev),
  mine,
  ground (arith, eq_iff owner owner, eq_iff rev rev),
  ground (arith, eq_iff owner owner, eq_iff rev rev),
  ground (arith, eq_iff owner owner, eq_iff rev rev),
)

pub given_current :
    (c : Card) (x : Conflict) {o : Option String}
    → conflict_revision c x ≡ ok o
    → (is_set o ≡ true) × (x.claim_revision ≡ o) × (against_current c (x ∷ []) ≡ true)
given_current c x h = ground (
  arith,
  opt_eq_comm c.owner x.existing_owner,
  opt_eq_comm c.meta.claim_revision x.existing_claim_revision,
  eq_of_opt_eq x.existing_claim_revision c.meta.claim_revision,
)

release_lost :
    (c : Card) (e : Event) (owner rev : String) (x : Conflict)
    → (owner == "") ≡ false
    → opt_eq c.owner (some owner) ≡ false
    → conflicts_of owner c.meta.claim_conflicts ≡ x ∷ []
    → conflict_revision c x ≡ ok (some rev)
    → Releases e owner rev
    → Effective c (apply_release c e) owner
unfolding apply_release
release_lost c e owner rev x real other single given r =
    let (_, exact, _) = given_current c x given in
    let (found, left) = one_left owner rev c.meta.claim_conflicts x single exact in
    rw (not_current, strikes found) (inr (refl, refl, rw (r.names_owner, r.names_revision) left))
  where
    not_current : releases_current c e ≡ false
    not_current = rw (r.names_owner, other) (ground arith)

    strikes :
        keep_if (matches (some owner) (some rev)) c.meta.claim_conflicts ≡ x ∷ []
        → releases_conflict c e ≡ true
    strikes found =
        let (whole, _, current) = given_current c x given in
        rw (r.names_owner, r.names_revision, found) (ground arith)

taken_by :
    (c : Card) (events : List Event) (e : Event) (owner rev : String) (l : List Conflict)
    → (owner == "") ≡ false
    → opt_eq c.owner (some owner) ≡ false
    → conflicts_of owner c.meta.claim_conflicts ≡ l
    → by_conflict c events owner l ≡ ok (some rev)
    → Releases e owner rev
    → Effective c (apply_release c e) owner
taken_by c events e owner rev [] real other p given r = absurd (ground arith)
taken_by c events e owner rev (x ∷ []) real other p given r =
    release_lost c e owner rev x real other p given r
taken_by c events e owner rev (x ∷ y ∷ l) real other p given r = cc

release_mine :
    (c : Card) (e : Event) (owner rev : String)
    → (owner == "") ≡ false
    → opt_eq c.owner (some owner) ≡ true
    → (if is_set c.meta.claim_revision
        then ok c.meta.claim_revision
        else err (value_error "claim has no revision"))
      ≡ ok (some rev)
    → Releases e owner rev
    → Effective c (apply_release c e) owner
release_mine c e owner rev real mine given r =
    release_current c e owner rev real (eq_of_opt_eq c.owner (some owner) mine) (ground arith)
      (ground arith) r

-- A release with the revision that `current_claim_precondition` returned always takes effect on the
-- card that it was read from: it frees the card of its owner, or, for an agent that lost a race, it
-- strikes out that agent's conflict and leaves the owner in place. It is never filed as a release
-- conflict.
pub release_takes_effect :
    (c : Card) (events : List Event) (e : Event) (owner rev : String)
    → (owner == "") ≡ false
    → current_claim_precondition (some c) events owner ≡ ok (some rev)
    → Releases e owner rev
    → Effective c (apply_release c e) owner
unfolding current_claim_precondition
release_takes_effect c events e owner rev real given r =
    elim (Bool-cases (opt_eq c.owner (some owner))) [
      | inl mine ↦ release_mine c e owner rev real mine (rw mine at given) r
      | inr other ↦ taken_by c events e owner rev _ real other refl (rw other at given) r
    ]
