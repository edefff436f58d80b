-- ===== src/Coord/Complete.antt =====
-- src/skcoord/coordination.py: `complete_task`, with its guards, and `_complete_task`.
use skcoord.Prelude.{
  String, Bool, true, false, not, ◌&&◌, Option, none, some, get_or, List, [], ◌∷◌, contains, is_set,
  is_some, opt_eq, append_one, discard, look_up, if◌then◌else◌, Result, ok, err, Error, value_error,
}
use skcoord.Card.Model.{Conflict, Card}
use skcoord.Coord.Model.{
  AgentState, active, idle, AgentFile, TaskView, fresh_agent, load_agent, save_agent, by_id,
}
use skcoord.Coord.Views.{has_completed}
use skcoord.Coord.Claim.{incomplete, is_none_left}

abbrev pub first_of : List String → Option String
first_of [] = none
first_of (id ∷ ids) = some id

-- The state behind a completion: active while there is a current task, else no longer active.
abbrev pub state_after : Option String → AgentState → AgentState
state_after current active = if is_set current then active else idle
state_after current s = if is_set current then active else s

unfoldable pub complete_file : String → AgentFile → AgentFile
complete_file task_id a =
    let claimed = discard task_id a.claimed_tasks in
    let current =
      if opt_eq a.current_task (some task_id) then first_of claimed else a.current_task in
    record a {
      claimed_tasks = claimed;
      completed_tasks =
          if contains task_id a.completed_tasks
          then a.completed_tasks
          else append_one a.completed_tasks task_id;
      current_task = current;
      state = state_after current a.state;
    }

abbrev pub is_free_of_conflicts : List Conflict → Bool
is_free_of_conflicts [] = true
is_free_of_conflicts (x ∷ xs) = false

-- _assert_no_claim_conflict
unfoldable pub claim_conflict : Option Card → String → Result Unit
claim_conflict none owner = ok tt
claim_conflict (some c) owner =
    if not (is_free_of_conflicts c.meta.claim_conflicts)
    then err (value_error "unresolved concurrent claim conflicts")
    else if (is_some c.owner && not (opt_eq c.owner (some owner)))
    then err (value_error "the task is owned by another agent")
    else ok tt

-- _incomplete_completion_dependencies, of the views of all tasks
unfoldable pub completion_gate : List TaskView → String → Result (List String)
completion_gate all_views task_id = elim (look_up task_id (by_id [] all_views)) [
  | none ↦ err (value_error "task not found")
  | some v ↦ ok (incomplete all_views v.task.dependencies)
]

-- The first agent that has completed the task.
unfoldable pub completed_by : List AgentFile → String → Option AgentFile
completed_by [] id = none
completed_by (a ∷ agents) id = if has_completed id a then some a else completed_by agents id

pub record Completion : Type 0 where
  pub agent : String
  pub task_id : String

-- What the call leaves: an exception, the agent that had completed the task before, or the agent files
-- and the agent that has completed it now.
pub data Completed : Type 0 where
  failed : Error → Completed
  already : AgentFile → Completed
  completed : List AgentFile → AgentFile → Completed

-- The completion, where the card store takes it.
unfoldable pub complete_held : List AgentFile → Completion → Completed
unfolding complete_file
complete_held agents q =
    let a = get_or (load_agent agents q.agent) (fresh_agent q.agent) in
    let b = complete_file q.task_id a in completed (save_agent b agents) b

-- What is left behind the check of conflicts: the dependencies, and the precondition of the caller.
unfoldable pub complete_open : List TaskView → Result Unit → List AgentFile → Completion → Completed
unfolding completion_gate complete_held
complete_open all_views precondition agents q = elim (completion_gate all_views q.task_id) [
  | err x ↦ failed x
  | ok left ↦
      if not (is_none_left left)
      then failed (value_error "the task has incomplete dependencies")
      else elim precondition [ err x ↦ failed x | ok u ↦ complete_held agents q ]
]

-- The card is what the store folds.
unfoldable pub complete_task :
    Option Card → List TaskView → Result Unit → List AgentFile → Completion → Completed
unfolding claim_conflict completed_by complete_open
complete_task card all_views precondition agents q = elim (claim_conflict card q.agent) [
  | err x ↦ failed x
  | ok u ↦ elim (completed_by agents q.task_id) [
    | some a ↦ already a
    | none ↦ complete_open all_views precondition agents q
  ]
]
