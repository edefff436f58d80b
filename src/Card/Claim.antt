-- ===== src/Card/Claim.antt =====
-- src/skcoord/card_store.py: the branches of `CardStore.fold` on ownership: void, move, assign,
-- unassign, release_claim, claim, complete, archive and reopen.
use skcoord.Prelude.{
  String, Bool, true, false, not, ◌&&◌, Option, none, some, get_or, List, [], ◌∷◌, is_set, is_some,
  append_one, keep_if, opt_eq, if◌then◌else◌,
}
use skcoord.Card.Model.{
  Column, backlog, ready, doing, review, done, parse_column, Conflict, Meta, Card,
}
use skcoord.Card.Event.{Event}

-- card.meta.pop("_claim_revision", None)
abbrev pub no_revision : Meta → Meta
no_revision m = record m { claim_revision = none }

unfoldable pub apply_void : Card → Event → Card
apply_void c e = record c {
  archived = true;
  owner = none;
  meta = record (no_revision c.meta) { voided = true; voided_at = e.ts; voided_by = e.writer };
}

-- card.status = Column(col), if col is one
abbrev pub column_or : Option String → Column → Column
column_or none old = old
column_or (some name) old = get_or (parse_column name) old

unfoldable pub apply_move : Card → Event → Card
apply_move c e = record c { status = column_or e.column c.status; order = get_or e.order c.order }

unfoldable pub apply_assign : Card → Event → Card
apply_assign c e = record c { owner = e.owner; meta = no_revision c.meta }

unfoldable pub apply_unassign : Card → Event → Card
apply_unassign c e = record c { owner = none; meta = no_revision c.meta }

unfoldable pub apply_complete : Card → Event → Card
apply_complete c e = record c { status = done; owner = none; meta = no_revision c.meta }

-- isinstance(released_owner, str) and bool(released_owner) and the same of the revision
abbrev pub valid_release : Event → Bool
valid_release e = is_set e.released_owner && is_set e.expected_claim_revision

-- The conflict names the owner and the revision.
abbrev pub matches : Option String → Option String → Conflict → Bool
matches owner revision x = opt_eq (some x.owner) owner && opt_eq x.claim_revision revision

abbrev pub matching_conflicts : Card → Event → List Conflict
matching_conflicts c e =
    keep_if (matches e.released_owner e.expected_claim_revision) c.meta.claim_conflicts

abbrev pub releases_current : Card → Event → Bool
releases_current c e =
    valid_release e
    && opt_eq c.owner e.released_owner
    && opt_eq c.meta.claim_revision e.expected_claim_revision

-- The one matching conflict was recorded against the claim that is current.
abbrev pub against_current : Card → List Conflict → Bool
against_current c (x ∷ []) =
    is_set c.meta.claim_revision
    && opt_eq c.owner x.existing_owner
    && opt_eq c.meta.claim_revision x.existing_claim_revision
against_current c _ = false

abbrev pub releases_conflict : Card → Event → Bool
releases_conflict c e = valid_release e && against_current c (matching_conflicts c e)

-- `conflict is not matching_conflicts[0]`: there is one match, so the others are those that do not
-- match.
abbrev pub other_conflicts : Card → Event → List Conflict
other_conflicts c e =
    keep_if (λ x. not (matches e.released_owner e.expected_claim_revision x)) c.meta.claim_conflicts

unfoldable pub apply_release : Card → Event → Card
apply_release c e =
    if releases_current c e
    then record c { owner = none; status = backlog; meta = no_revision c.meta }
    else if releases_conflict c e
    then record c { meta = record (c.meta) { claim_conflicts = other_conflicts c e } }
    else record c {
      meta = record (c.meta) {
        release_conflicts = append_one c.meta.release_conflicts (record {
          event_id = e.event_id;
          released_owner = e.released_owner;
          expected_claim_revision = e.expected_claim_revision;
          actual_owner = c.owner;
          actual_claim_revision = c.meta.claim_revision;
        });
      };
    }

-- card.status in {READY, DOING, REVIEW}
abbrev pub is_active : Column → Bool
is_active ready = true
is_active doing = true
is_active review = true
is_active _ = false

abbrev pub is_backlog : Column → Bool
is_backlog backlog = true
is_backlog _ = false

-- Another owner holds an active card.
abbrev pub contends : Card → Event → Bool
contends c e =
    is_set e.owner && is_set c.owner && not (opt_eq c.owner e.owner) && is_active c.status

-- e.get("claim_revision") or e.get("event_id")
abbrev pub new_revision : Event → Option String
new_revision e = if is_set e.claim_revision then e.claim_revision else e.event_id

abbrev pub was_unowned_backlog : Card → Bool
was_unowned_backlog c = not (is_some c.owner) && is_backlog c.status

unfoldable pub apply_claim : Card → Event → Card
apply_claim c e =
    if contends c e
    then record c {
      meta = record (c.meta) {
        claim_conflicts = append_one c.meta.claim_conflicts (record {
          event_id = e.event_id;
          owner = get_or e.owner "";
          claim_revision = e.claim_revision;
          existing_owner = c.owner;
          existing_claim_revision = c.meta.claim_revision;
        });
      };
    }
    else record c {
      owner = e.owner;
      status = doing;
      meta = record (c.meta) {
        claim_revision = if is_set (new_revision e) then new_revision e else none;
        claim_conflicts =
            if (was_unowned_backlog c && is_set e.owner) then [] else c.meta.claim_conflicts;
      };
    }

unfoldable pub apply_archive : Card → Event → Card
apply_archive c e = record c {
  archived = true;
  meta = record (c.meta) { archived_at = e.ts; archived_by = e.writer };
}

unfoldable pub apply_reopen : Card → Event → Card
apply_reopen c e = record c { archived = false; status = column_or e.column c.status }
