-- ===== src/Coord/Claim.antt =====
-- src/skcoord/coordination.py: `_claim_task`, with its refusals, and what `_unclaimable_absent` makes
-- of a task that the board does not show.
use skcoord.Prelude.{
  String, Bool, true, false, not, ◌&&◌, ◌||◌, Option, none, some, get_or, List, [], ◌∷◌, ◌==◌,
  contains, is_some, opt_eq, append_one, keep_if, if◌then◌else◌,
}
use skcoord.Card.Model.{Card}
use skcoord.Coord.Model.{
  Status, claimed, in_progress, review, active, AgentFile, TaskView, fresh_agent, is_done,
  load_agent, save_agent, by_id,
}
use skcoord.Coord.Views.{is_done_in}

-- TaskUnclaimable.reason
pub data Reason : Type 0 where
  absent voided archived done_already owned dependencies inconsistent : Reason

-- TaskUnclaimable.terminal
abbrev pub is_terminal : Reason → Bool
is_terminal absent = true
is_terminal voided = true
is_terminal archived = true
is_terminal done_already = true
is_terminal _ = false

-- The card is what the store folds, none where it has no such card.
unfoldable pub unclaimable_absent : Option Card → Reason
unclaimable_absent none = absent
unclaimable_absent (some c) =
    if c.meta.voided then voided else if c.archived then archived else inconsistent

-- The first view of the task.
unfoldable pub find_view : List TaskView → String → Option TaskView
find_view [] id = none
find_view (v ∷ views) id = if v.task.id == id then some v else find_view views id

-- status in (CLAIMED, IN_PROGRESS, REVIEW)
abbrev pub is_active : Status → Bool
is_active claimed = true
is_active in_progress = true
is_active review = true
is_active _ = false

abbrev pub ownerless_active : TaskView → Bool
ownerless_active v = not (is_some v.claimed_by) && is_active v.status

-- Someone else has the task, or it is done.
abbrev pub is_taken : String → TaskView → Bool
is_taken agent v =
    (is_done v.status || is_active v.status)
    && not (ownerless_active v)
    && not (opt_eq v.claimed_by (some agent))

-- The dependencies that are not done in the views of all tasks, archived ones included.
abbrev pub incomplete : List TaskView → List String → List String
incomplete all_views ids = keep_if (λ id. not (is_done_in (by_id [] all_views) id)) ids

abbrev pub is_none_left : List String → Bool
is_none_left [] = true
is_none_left (id ∷ ids) = false

-- The refusals of a task that the board shows.
unfoldable pub refusal : List TaskView → String → TaskView → Option Reason
refusal all_views agent v =
    if is_taken agent v
    then some (if is_done v.status then done_already else owned)
    else if is_none_left (incomplete all_views v.task.dependencies)
    then none
    else some dependencies

-- agent.current_task, unless there is none or it is the task itself
abbrev pub bumped_by : String → Option String → Option String
bumped_by task_id none = none
bumped_by task_id (some current) = if current == task_id then none else some current

abbrev pub without : Option String → List String → List String
without none ids = ids
without (some gone) ids = keep_if (λ id. not (id == gone)) ids

unfoldable pub claim_file : Bool → String → AgentFile → AgentFile
claim_file drop_bumped_claim task_id a =
    let bumped = bumped_by task_id a.current_task in
    let kept = if drop_bumped_claim then without bumped a.claimed_tasks else a.claimed_tasks in
    record a {
      claimed_tasks = if contains task_id kept then kept else append_one kept task_id;
      current_task = some task_id;
      state = active;
    }

-- What a claim leaves: a refusal, or the agent files with the claim and the task that was bumped.
pub data Claimed : Type 0 where
  refused : Reason → Claimed
  granted : List AgentFile → AgentFile → Option String → Claimed

pub record Claim : Type 0 where
  pub agent : String
  pub task_id : String
  pub drop_bumped_claim : Bool

-- self.load_agent(agent_name) or AgentFile(agent=agent_name)
abbrev pub own_file : List AgentFile → Claim → AgentFile
own_file agents q = get_or (load_agent agents q.agent) (fresh_agent q.agent)

unfoldable pub grant : List AgentFile → Claim → Claimed
unfolding claim_file
grant agents q =
    let a = own_file agents q in
    let b = claim_file q.drop_bumped_claim q.task_id a in
    granted (save_agent b agents) b (bumped_by q.task_id a.current_task)

unfoldable pub claim_view : List TaskView → List AgentFile → Claim → TaskView → Claimed
unfolding refusal
claim_view all_views agents q v = elim (refusal all_views q.agent v) [
  | none ↦ grant agents q
  | some r ↦ refused r
]

-- The views are `get_task_views()`, without and with the archived tasks.
unfoldable pub claim_task :
    List TaskView → List TaskView → Option Card → List AgentFile → Claim → Claimed
unfolding find_view claim_view unclaimable_absent
claim_task views all_views card agents q = elim (find_view views q.task_id) [
  | none ↦ refused (unclaimable_absent card)
  | some v ↦ claim_view all_views agents q v
]
