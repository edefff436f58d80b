-- ===== src/Itil/Problem/Model.antt =====
-- src/skcoord/itil.py: the problem lifecycle and the problem record.
use skcoord.Prelude.{String, Bool, true, false, Option, none, some, List, ◌==◌, if◌then◌else◌}
use skcoord.Itil.Event.{Entry}

pub data Status : Type 0 where
  identified analyzing known_error resolved : Status

abbrev pub value : Status → String
value identified = "identified"
value analyzing = "analyzing"
value known_error = "known_error"
value resolved = "resolved"

-- The status that a text names.
unfoldable pub parse_status : String → Option Status
parse_status s =
    if s == "identified"
    then some identified
    else if s == "analyzing"
    then some analyzing
    else if s == "known_error"
    then some known_error
    else if s == "resolved"
    then some resolved
    else none

-- _PROBLEM_TRANSITIONS: whether the second status is in the row of the first.
abbrev pub transitions : Status → Status → Bool
transitions identified analyzing = true
transitions analyzing known_error = true
transitions analyzing resolved = true
transitions known_error resolved = true
transitions _ _ = false

-- core.json
pub record Core : Type 0 where
  pub id : Option String
  pub title : String
  pub root_cause : Option String
  pub workaround : Option String
  pub managed_by : String
  pub created_by : String
  pub created_at : String
  pub related_incident_ids : List String
  pub related_change_id : Option String
  pub kedb_id : Option String
  pub tags : List String

-- The record that the fold returns.
pub record Problem : Type 0 where
  pub id : String
  pub title : String
  pub status : Status
  pub root_cause : Option String
  pub workaround : Option String
  pub managed_by : String
  pub created_by : String
  pub created_at : String
  pub related_incident_ids : List String
  pub related_change_id : Option String
  pub kedb_id : Option String
  pub gtd_item_ids : List String
  pub timeline : List Entry
  pub tags : List String
