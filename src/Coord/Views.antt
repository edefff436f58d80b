-- ===== src/Coord/Views.antt =====
-- src/skcoord/coordination.py: `_legacy_task_views`, behind its two folds of amendments. The sets are
-- lists, and `claimed_map` is an association list.
use skcoord.Prelude.{
  String, Bool, false, Option, none, some, List, [], ◌∷◌, foldl, map, contains, is_set, is_some,
  opt_eq, any_of, ◌&&◌, look_up, put, if◌then◌else◌,
}
use skcoord.Coord.Model.{
  Status, opened, claimed, in_progress, done, Task, AgentFile, TaskView, is_done,
}

-- tid in completed_set, and tid in in_progress_set
abbrev pub has_completed : String → AgentFile → Bool
has_completed id a = contains id a.completed_tasks

abbrev pub works_on : String → AgentFile → Bool
works_on id a = is_set a.current_task && opt_eq a.current_task (some id)

-- claimed_map after one agent
unfoldable pub add_claims : String → List String → List (String × String) → List (String × String)
add_claims agent [] claims = claims
add_claims agent (id ∷ ids) claims = add_claims agent ids (put id agent claims)

abbrev pub add_current : String → Option String → List (String × String) → List (String × String)
add_current agent none claims = claims
add_current agent (some id) claims = if is_set (some id) then put id agent claims else claims

unfoldable pub agent_claims : List (String × String) → AgentFile → List (String × String)
unfolding add_claims
agent_claims claims a =
    add_current a.agent a.current_task (add_claims a.agent a.claimed_tasks claims)

unfoldable pub claimed_map : List AgentFile → List (String × String)
unfolding agent_claims
claimed_map agents = foldl agent_claims [] agents

unfoldable pub task_status : List AgentFile → String → Status
unfolding claimed_map
task_status agents id =
    if any_of (has_completed id) agents
    then done
    else if any_of (works_on id) agents
    then in_progress
    else if is_some (look_up id (claimed_map agents))
    then claimed
    else opened

unfoldable pub legacy_task_view : List AgentFile → Task → TaskView
unfolding task_status
legacy_task_view agents t = record {
  task = t;
  status = task_status agents t.id;
  claimed_by = look_up t.id (claimed_map agents);
}

unfoldable pub legacy_task_views : List AgentFile → List Task → List TaskView
unfolding legacy_task_view
legacy_task_views agents tasks = map (legacy_task_view agents) tasks

-- Whether a task's status is done in the views by id.
abbrev pub is_done_in : List (String × TaskView) → String → Bool
is_done_in found id = elim (look_up id found) [ none ↦ false | some v ↦ is_done v.status ]
