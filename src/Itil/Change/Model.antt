-- ===== src/Itil/Change/Model.antt =====
-- src/skcoord/itil.py: the change lifecycle and the change record.
use skcoord.Prelude.{String, Bool, true, false, Option, none, some, List, ◌==◌, ◌||◌, if◌then◌else◌}
use skcoord.Itil.Event.{Entry}

pub data Status : Type 0 where
  proposed reviewing approved scheduled rejected implementing deployed verified failed : Status
  closed : Status

abbrev pub value : Status → String
value proposed = "proposed"
value reviewing = "reviewing"
value approved = "approved"
value scheduled = "scheduled"
value rejected = "rejected"
value implementing = "implementing"
value deployed = "deployed"
value verified = "verified"
value failed = "failed"
value closed = "closed"

-- The status that a text names.
unfoldable pub parse_status : String → Option Status
parse_status s =
    if s == "proposed"
    then some proposed
    else if s == "reviewing"
    then some reviewing
    else if s == "approved"
    then some approved
    else if s == "scheduled"
    then some scheduled
    else if s == "rejected"
    then some rejected
    else if s == "implementing"
    then some implementing
    else if s == "deployed"
    then some deployed
    else if s == "verified"
    then some verified
    else if s == "failed"
    then some failed
    else if s == "closed"
    then some closed
    else none

-- _CHANGE_TRANSITIONS: whether the second status is in the row of the first.
abbrev pub transitions : Status → Status → Bool
transitions proposed reviewing = true
transitions proposed approved = true
transitions proposed rejected = true
transitions reviewing approved = true
transitions reviewing rejected = true
transitions approved implementing = true
transitions approved rejected = true
transitions approved scheduled = true
transitions scheduled implementing = true
transitions scheduled approved = true
transitions scheduled rejected = true
transitions rejected closed = true
transitions implementing deployed = true
transitions implementing failed = true
transitions deployed verified = true
transitions deployed failed = true
transitions verified closed = true
transitions failed implementing = true
transitions failed closed = true
transitions _ _ = false

-- status in ("proposed", "reviewing")
abbrev pub is_pending : Status → Bool
is_pending proposed = true
is_pending reviewing = true
is_pending _ = false

-- ChangeType(text) and Risk(text) raise ValueError on any other text.
abbrev pub is_change_type : String → Bool
is_change_type s = s == "standard" || s == "normal" || s == "emergency"

abbrev pub is_risk : String → Bool
is_risk s = s == "low" || s == "medium" || s == "high"

-- core.json
pub record Core : Type 0 where
  pub id : Option String
  pub title : String
  pub change_type : Option String
  pub risk : Option String
  pub rollback_plan : String
  pub test_plan : String
  pub managed_by : String
  pub created_by : String
  pub implementer : Option String
  pub cab_required : Option Bool
  pub created_at : String
  pub related_problem_id : Option String
  pub tags : List String

pub record PullRequest : Type 0 where
  pub url : Option String
  pub branch : Option String
  pub run_id : Option String
  pub head_sha : Option String

pub record Validation : Type 0 where
  pub passed : Bool
  pub head_sha : Option String
  pub url : Option String
  pub summary : Option String
  pub checks : Option String

pub record Window : Type 0 where
  pub window_start : Option String
  pub window_end : Option String
  pub asap : Bool
  pub deploy_mode : String

-- The record that the fold returns.
pub record Change : Type 0 where
  pub id : String
  pub title : String
  pub change_type : String
  pub status : Status
  pub risk : String
  pub rollback_plan : String
  pub test_plan : String
  pub managed_by : String
  pub created_by : String
  pub implementer : Option String
  pub cab_required : Bool
  pub created_at : String
  pub related_problem_id : Option String
  pub gtd_item_ids : List String
  pub timeline : List Entry
  pub tags : List String
  pub prepared_pr : Option PullRequest
  pub prepared_by : Option String
  pub validation : Option Validation
  pub scheduled_window : Option Window
