-- ===== src/Coord/Model.antt =====
-- src/skcoord/coordination.py: tasks, agent files and task views.
use Prim.Native.Nat.{Ordering}
use Prim.Native.String.{compare}
use skcoord.Prelude.{
  String, Bool, true, false, Option, none, some, List, [], ◌∷◌, ◌==◌, concat, put, if◌then◌else◌,
}

-- TaskStatus and AgentState
pub data Status : Type 0 where
  opened claimed in_progress review done blocked : Status

pub data AgentState : Type 0 where
  active idle offline : AgentState

-- The fields of `Task` that the board's logic reads.
pub record Task : Type 0 where
  pub id : String
  pub title : String
  pub tags : List String
  pub created_by : String
  pub created_at : String
  pub dependencies : List String

-- Without the time and the host of the last write, which nothing reads.
pub record AgentFile : Type 0 where
  pub agent : String
  pub state : AgentState
  pub current_task : Option String
  pub claimed_tasks : List String
  pub completed_tasks : List String
  pub capabilities : List String
  pub itil_claims : List String
  pub notes : String

pub record TaskView : Type 0 where
  pub task : Task
  pub status : Status
  pub claimed_by : Option String

-- AgentFile(agent=name)
abbrev pub fresh_agent : String → AgentFile
fresh_agent name = record {
  agent = name;
  state = active;
  current_task = none;
  claimed_tasks = [];
  completed_tasks = [];
  capabilities = [];
  itil_claims = [];
  notes = "";
}

abbrev pub is_done : Status → Bool
is_done done = true
is_done _ = false

-- load_agent: the file of that name
unfoldable pub load_agent : List AgentFile → String → Option AgentFile
load_agent [] name = none
load_agent (a ∷ agents) name = if a.agent == name then some a else load_agent agents name

abbrev pub file_name : AgentFile → String
file_name a = concat (a.agent ∷ ".json" ∷ [])

abbrev pub stands_before : AgentFile → AgentFile → Bool
stands_before a b = elim (compare (file_name a) (file_name b)) [ Ordering.lt ↦ true | _ ↦ false ]

-- save_agent: the agent's file is written. The files stand in the order in which `load_agents` reads
-- them, that of their names.
unfoldable pub save_agent : AgentFile → List AgentFile → List AgentFile
save_agent a [] = a ∷ []
save_agent a (b ∷ agents) =
    let rest = save_agent a agents in
    if a.agent == b.agent
    then a ∷ agents
    else if stands_before a b
    then a ∷ b ∷ agents
    else b ∷ rest

-- {view.task.id: view for view in views}
unfoldable pub by_id : List (String × TaskView) → List TaskView → List (String × TaskView)
by_id found [] = found
by_id found (v ∷ views) = by_id (put v.task.id v found) views
