-- ===== src/Card/Model.antt =====
-- src/skcoord/card.py and src/skcoord/card_store.py: the columns, the card and its birth facts.
use skcoord.Prelude.{ℕ, ℤ, String, Bool, Option, none, some, List, ◌==◌, if◌then◌else◌}

pub data Column : Type 0 where
  backlog ready doing review done : Column

pub data Kind : Type 0 where
  task epic incident problem change : Kind

-- The column that a text names.
unfoldable pub parse_column : String → Option Column
parse_column s =
    if s == "backlog"
    then some backlog
    else if s == "ready"
    then some ready
    else if s == "doing"
    then some doing
    else if s == "review"
    then some review
    else if s == "done"
    then some done
    else none

abbrev pub column_value : Column → String
column_value backlog = "backlog"
column_value ready = "ready"
column_value doing = "doing"
column_value review = "review"
column_value done = "done"

-- Kind(text), and Kind.TASK where that raises ValueError
unfoldable pub kind_or_task : String → Kind
kind_or_task s =
    if s == "task"
    then task
    else if s == "epic"
    then epic
    else if s == "incident"
    then incident
    else if s == "problem"
    then problem
    else if s == "change"
    then change
    else task

-- An entry of meta["claim_conflicts"].
pub record Conflict : Type 0 where
  pub event_id : Option String
  pub owner : String
  pub claim_revision : Option String
  pub existing_owner : Option String
  pub existing_claim_revision : Option String

-- An entry of meta["release_conflicts"].
pub record ReleaseConflict : Type 0 where
  pub event_id : Option String
  pub released_owner : Option String
  pub expected_claim_revision : Option String
  pub actual_owner : Option String
  pub actual_claim_revision : Option String

-- An entry of meta["comments"].
pub record Comment : Type 0 where
  pub ts : Option String
  pub writer : Option String
  pub text : String

pub record Activity : Type 0 where
  pub ts : Option String
  pub atype : Option String
  pub text : String
  pub writer : Option String

-- meta["agent_run"]
pub record AgentRun : Type 0 where
  pub run_id : Option String
  pub state : Option String
  pub instruction : String
  pub agent : Option String
  pub mode : String
  pub kind : Option String
  pub requester : Option String
  pub created_at : Option String
  pub activity : List Activity
  pub attempts : ℕ
  pub links : List (String × String)
  pub worker : Option String
  pub lease_expires : Option String
  pub last_error : Option String

-- The keys of `meta` that the fold reads or writes. An absent list is the empty one: the fold
-- removes a key in place of storing an empty list.
pub record Meta : Type 0 where
  pub claim_revision : Option String
  pub claim_conflicts : List Conflict
  pub release_conflicts : List ReleaseConflict
  pub comments : List Comment
  pub agent_run : Option AgentRun
  pub voided : Bool
  pub voided_at : Option String
  pub voided_by : Option String
  pub archived_at : Option String
  pub archived_by : Option String

pub record Card : Type 0 where
  pub id : String
  pub kind : Kind
  pub title : String
  pub description : String
  pub status : Column
  pub swimlane : String
  pub priority : String
  pub originator : String
  pub owner : Option String
  pub order : ℤ
  pub labels : List String
  pub acceptance_criteria : List String
  pub dependencies : List String
  pub links : List (String × Option String)
  pub meta : Meta
  pub archived : Bool
  pub created_at : String
  pub updated_at : String
  pub source : String

-- core.json
pub record Core : Type 0 where
  pub id : Option String
  pub kind : Option String
  pub title : String
  pub description : String
  pub created_by : String
  pub created_at : String
  pub acceptance_criteria : List String
  pub dependencies : List String
  pub initial_priority : Option String
  pub initial_swimlane : Option String
  pub initial_labels : List String
  pub initial_owner : Option String
  pub initial_claim_revision : Option String
  pub meta : Meta
