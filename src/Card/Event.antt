-- ===== src/Card/Event.antt =====
-- src/skcoord/card_store.py: one event of a card, as the fold reads it.
use skcoord.Prelude.{ℕ, ℤ, String, Bool, true, false, Option, none, List, ◌==◌, if◌then◌else◌}

-- The keys that the fold reads. `Option` marks a value that is read with the default None;
-- `criteria` is none when it is not a list.
pub record Event : Type 0 where
  pub action : String
  pub ts : Option String
  pub writer : Option String
  pub seq : ℕ
  pub event_id : Option String
  pub column : Option String
  pub order : Option ℤ
  pub owner : Option String
  pub released_owner : Option String
  pub expected_claim_revision : Option String
  pub claim_revision : Option String
  pub priority : String
  pub swimlane : String
  pub label : Option String
  pub link_key : Option String
  pub link_value : Option String
  pub title : Option String
  pub description : Option String
  pub criteria : Option (List String)
  pub dependency : Option String
  pub text : String
  pub run_id : Option String
  pub instruction : String
  pub run_agent : Option String
  pub mode : Option String
  pub kind : Option String
  pub worker : Option String
  pub lease_expires : Option String
  pub atype : Option String
  pub state : Option String
  pub last_error : String
  pub pr : String
  pub commit : String
  pub branch : String
  pub transcript : String

abbrev pub bare : String → Event
bare action = record {
  action = action;
  ts = none;
  writer = none;
  seq = 0;
  event_id = none;
  column = none;
  order = none;
  owner = none;
  released_owner = none;
  expected_claim_revision = none;
  claim_revision = none;
  priority = "";
  swimlane = "";
  label = none;
  link_key = none;
  link_value = none;
  title = none;
  description = none;
  criteria = none;
  dependency = none;
  text = "";
  run_id = none;
  instruction = "";
  run_agent = none;
  mode = none;
  kind = none;
  worker = none;
  lease_expires = none;
  atype = none;
  state = none;
  last_error = "";
  pr = "";
  commit = "";
  branch = "";
  transcript = "";
}

pub data Action : Type 0 where
  void move assign unassign release_claim claim complete priority swimlane add_label : Action
  remove_label link describe amend_criteria add_dependency remove_dependency note : Action
  agent_run_request agent_run_claim agent_run_activity agent_run_state archive reopen : Action
  unknown : Action

unfoldable pub action_of : String → Action
action_of a =
    if a == "void"
    then Action.void
    else if a == "move"
    then Action.move
    else if a == "assign"
    then Action.assign
    else if a == "unassign"
    then Action.unassign
    else if a == "release_claim"
    then Action.release_claim
    else if a == "claim"
    then Action.claim
    else if a == "complete"
    then Action.complete
    else if a == "priority"
    then Action.priority
    else if a == "swimlane"
    then Action.swimlane
    else if a == "add_label"
    then Action.add_label
    else if a == "remove_label"
    then Action.remove_label
    else if a == "link"
    then Action.link
    else if a == "describe"
    then Action.describe
    else if a == "amend_criteria"
    then Action.amend_criteria
    else if a == "add_dependency"
    then Action.add_dependency
    else if a == "remove_dependency"
    then Action.remove_dependency
    else if a == "note"
    then Action.note
    else if a == "agent_run_request"
    then Action.agent_run_request
    else if a == "agent_run_claim"
    then Action.agent_run_claim
    else if a == "agent_run_activity"
    then Action.agent_run_activity
    else if a == "agent_run_state"
    then Action.agent_run_state
    else if a == "archive"
    then Action.archive
    else if a == "reopen"
    then Action.reopen
    else Action.unknown

-- void_terminal_actions
abbrev pub is_void_terminal : Action → Bool
is_void_terminal Action.move = true
is_void_terminal Action.reopen = true
is_void_terminal Action.assign = true
is_void_terminal Action.unassign = true
is_void_terminal Action.claim = true
is_void_terminal Action.release_claim = true
is_void_terminal Action.complete = true
is_void_terminal _ = false
