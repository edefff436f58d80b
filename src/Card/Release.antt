-- ===== src/Card/Release.antt =====
-- src/skcoord/card_store.py: `current_claim_precondition`, which a caller reads before it releases a
-- claim, and the event that `mirror_coord_release` appends.
use skcoord.Prelude.{
  String, Bool, not, ◌&&◌, Option, none, some, List, [], ◌∷◌, ◌==◌, is_set, is_some, opt_eq, any_of,
  keep_if, if◌then◌else◌, Result, ok, err, value_error,
}
use skcoord.Card.Model.{Conflict, Card}
use skcoord.Card.Event.{Event, bare}
use skcoord.Card.Claim.{is_backlog}

-- The conflicts that the owner has lost.
abbrev pub conflicts_of : String → List Conflict → List Conflict
conflicts_of owner = keep_if (λ (x : Conflict). x.owner == owner)

-- The one conflict of the owner, if it was recorded against the claim that is current.
abbrev pub conflict_revision : Card → Conflict → Result (Option String)
conflict_revision c x =
    if (is_set x.claim_revision
      && is_set x.existing_claim_revision
      && opt_eq x.existing_owner c.owner
      && opt_eq x.existing_claim_revision c.meta.claim_revision)
    then ok x.claim_revision
    else err (value_error "claim conflict has no exact revision")

abbrev pub was_released_by : String → Event → Bool
was_released_by owner e = e.action == "release_claim" && opt_eq e.released_owner (some owner)

-- No conflict of the owner: the marker of a retry, or the refusal.
abbrev pub retry_marker : Card → List Event → String → Result (Option String)
retry_marker c events owner =
    if (not (is_some c.owner) && is_backlog c.status && any_of (was_released_by owner) events)
    then ok none
    else err (value_error "owner conflict")

abbrev pub by_conflict : Card → List Event → String → List Conflict → Result (Option String)
by_conflict c events owner [] = retry_marker c events owner
by_conflict c events owner (x ∷ []) = conflict_revision c x
by_conflict c events owner (x ∷ y ∷ xs) = err (value_error "claim conflict is ambiguous")

-- The card is what `fold` returns, none for a card that is not there; the events are the card's own.
unfoldable pub current_claim_precondition :
    Option Card → List Event → String → Result (Option String)
current_claim_precondition none events owner = err (value_error "card not found")
current_claim_precondition (some c) events owner =
    if opt_eq c.owner (some owner)
    then (if is_set c.meta.claim_revision
        then ok c.meta.claim_revision
        else err (value_error "claim has no revision"))
    else by_conflict c events owner (conflicts_of owner c.meta.claim_conflicts)

-- The event that `mirror_coord_release` appends, when there is a revision to append it for.
unfoldable pub release_event : String → String → Option String → Option Event
release_event owner actor none = none
release_event owner actor (some revision) = some (record (bare "release_claim") {
  writer = some actor;
  released_owner = some owner;
  expected_claim_revision = some revision;
})
