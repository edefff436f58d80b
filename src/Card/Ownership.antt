-- ===== src/Card/Ownership.antt =====
-- src/skcoord/card_store.py: who owns a card. Claims are exclusive, and a release needs the exact
-- claim that it releases.
use skcoord.Prelude.{Bool, true, false, not}
use skcoord.Card.Model.{Card}
use skcoord.Card.Event.{Event, Action}
use skcoord.Card.Claim.{releases_current, contends}

-- Whether an event changes hands, or may: these actions set the owner or clear it.
abbrev pub changes_hands : Action → Card → Event → Bool
changes_hands Action.void c e = true
changes_hands Action.assign c e = true
changes_hands Action.unassign c e = true
changes_hands Action.complete c e = true
changes_hands Action.release_claim c e = releases_current c e
changes_hands Action.claim c e = not (contends c e)
changes_hands _ c e = false
