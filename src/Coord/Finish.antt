-- ===== src/Coord/Finish.antt =====
-- src/skcoord/coordination.py: when a completion goes through, and what it leaves.
use skcoord.Prelude.{
  String, ◌≡◌, refl, sym, ap, ◌∙◌, subst, Bool, true, false, not, ◌&&◌, ◌||◌, ◌⊎◌, inl, inr, Option,
  none, some, get_or, List, [], ◌∷◌, arith, ◌==◌, eq_iff, All, any_of, contains, is_set, is_some,
  opt_eq, append_one, discard, look_up, eq_of_opt_eq, Bool-cases, contains-append_one,
  contains-discard, IsDistinct, if◌then◌else◌, Result, ok, err,
}
use skcoord.Card.Model.{Conflict, Card}
use skcoord.Coord.Model.{done, AgentFile, TaskView, fresh_agent, load_agent, save_agent, by_id}
use skcoord.Coord.Views.{has_completed, task_status}
use skcoord.Coord.Claim.{incomplete, is_none_left}
use skcoord.Coord.Complete.{
  complete_file, claim_conflict, completion_gate, completed_by, Completion, Completed, failed,
  already, completed, complete_held, complete_open, complete_task, is_free_of_conflicts,
}
use skcoord.Coord.Shown.{save_agent-any, load-save}
use skcoord.Coord.Gates.{AllDone, none_incomplete, own_file-name, done_of}

-- The store's card, if there is one, has no conflicting claim and no other owner.
abbrev pub Uncontested : Option Card → String → Type 0
Uncontested none agent = Unit
Uncontested (some c) agent =
    (c.meta.claim_conflicts ≡ []) × ((c.owner ≡ none) ⊎ (c.owner ≡ some agent))

-- The files after a completion: the agent's own has the task among those completed, and no longer
-- claims it, and the views show the task done.
pub record IsFinished (agents files : List AgentFile) (q : Completion) (b : AgentFile)
    : Type 0 where
  pub saved : load_agent files q.agent ≡ some b
  pub recorded : contains q.task_id b.completed_tasks ≡ true
  pub dropped : contains q.task_id b.claimed_tasks ≡ false
  pub shown : task_status files q.task_id ≡ done

complete_file_lem :
    (id : String) (a : AgentFile)
    → (contains id (complete_file id a).completed_tasks ≡ true)
      × (IsDistinct a.claimed_tasks → contains id (complete_file id a).claimed_tasks ≡ false)
unfolding complete_file
complete_file_lem id a = (
  ground (arith, contains-append_one id id a.completed_tasks, eq_iff id id),
  λ d. ground (arith, contains-discard id id a.claimed_tasks d, eq_iff id id),
)

-- The agent's own file, or a new one.
abbrev pub file_of : List AgentFile → Completion → AgentFile
file_of agents q = get_or (load_agent agents q.agent) (fresh_agent q.agent)

module _ (agents : List AgentFile) (q : Completion)
    (once : IsDistinct (file_of agents q).claimed_tasks) where
  abbrev file : AgentFile
  file = file_of agents q

  complete-IsFinished :
      IsFinished agents
        (save_agent (complete_file q.task_id file) agents)
        q
        (complete_file q.task_id file)
  unfolding complete_file
  complete-IsFinished =
      let b = complete_file q.task_id file in
      let (recorded, dropped) = complete_file_lem q.task_id file in
      record {
        saved =
            subst (λ n. load_agent (save_agent b agents) n ≡ some b)
              (own_file-name q.agent agents (load_agent agents q.agent) refl) (load-save b agents);
        recorded = recorded;
        dropped = dropped once;
        shown =
            done_of (save_agent b agents) q.task_id
              (save_agent-any (has_completed q.task_id) b agents recorded);
      }

no_conflict :
    (card : Option Card) (agent : String)
    → claim_conflict card agent ≡ ok tt
    → Uncontested card agent
unfolding claim_conflict
no_conflict none agent h = tt
no_conflict (some c) agent h = (free c.meta.claim_conflicts (ground arith), unowned c.owner refl h)
  where
    free : (l : List Conflict) → is_free_of_conflicts l ≡ true → l ≡ []
    free [] p = refl
    free (x ∷ l) p = cc

    unowned :
        (o : Option String)
        → c.owner ≡ o
        → (if not (is_free_of_conflicts c.meta.claim_conflicts)
            then err (skcoord.Prelude.value_error "unresolved concurrent claim conflicts")
            else if (is_some c.owner && not (opt_eq c.owner (some agent)))
            then err (skcoord.Prelude.value_error "the task is owned by another agent")
            else ok tt)
          ≡ ok tt
        → (c.owner ≡ none) ⊎ (c.owner ≡ some agent)
    unowned none p k = inl p
    unowned (some x) p k = inr (eq_of_opt_eq c.owner (some agent) (ground arith))

module _ (card : Option Card) (all_views : List TaskView) (precondition : Result Unit)
    (agents : List AgentFile) (q : Completion)
    (once : IsDistinct (file_of agents q).claimed_tasks) where
  abbrev Done : Completed → Type 0
  Done (failed x) = Unit
  Done (already a) = has_completed q.task_id a ≡ true
  Done (completed files b) =
      (precondition ≡ ok tt)
      × ((v : TaskView) × (look_up q.task_id (by_id [] all_views) ≡ some v)
          × AllDone all_views v.task.dependencies)
      × IsFinished agents files q b

  gate_open :
      (left : List String)
      → completion_gate all_views q.task_id ≡ ok left
      → is_none_left left ≡ true
      → (v : TaskView) × (look_up q.task_id (by_id [] all_views) ≡ some v)
        × AllDone all_views v.task.dependencies
  unfolding completion_gate
  gate_open left h none_left = seen (look_up q.task_id (by_id [] all_views)) refl h
    where
      seen :
          (o : Option TaskView)
          → look_up q.task_id (by_id [] all_views) ≡ o
          → elim o as (λ _. Result (List String)) [
            | none ↦ err (skcoord.Prelude.value_error "task not found")
            | some v ↦ ok (incomplete all_views v.task.dependencies)
          ]
            ≡ ok left
          → (v : TaskView) × (look_up q.task_id (by_id [] all_views) ≡ some v)
            × AllDone all_views v.task.dependencies
      seen none p k = cc
      seen (some v) p k = (v, p, none_incomplete all_views v.task.dependencies (ground arith))

  choose :
      (b : Bool) (c d : Completed)
      → (b ≡ true → Done c)
      → (b ≡ false → Done d)
      → Done (if b then c else d)
  choose true c d h k = h refl
  choose false c d h k = k refl

  open-Done : Done (complete_open all_views precondition agents q)
  unfolding complete_open complete_held
  open-Done = gated (completion_gate all_views q.task_id) refl
    where
      checked :
          (p : Result Unit)
          → precondition ≡ p
          → ((v : TaskView) × (look_up q.task_id (by_id [] all_views) ≡ some v)
              × AllDone all_views v.task.dependencies)
          → Done (elim p as (λ _. Completed) [ err x ↦ failed x | ok u ↦ complete_held agents q ])
      checked (err x) e deps = tt
      checked (ok u) e deps = (e, deps, complete-IsFinished agents q once)

      gated :
          (r : Result (List String))
          → completion_gate all_views q.task_id ≡ r
          → Done (elim r as (λ _. Completed) [
            | err x ↦ failed x
            | ok left ↦
                if not (is_none_left left)
                then failed (skcoord.Prelude.value_error "the task has incomplete dependencies")
                else elim precondition [ err x ↦ failed x | ok u ↦ complete_held agents q ]
          ])
      gated (err x) e = tt
      gated (ok left) e =
          choose (not (is_none_left left)) _ _ (λ h. tt)
            (λ h. checked precondition refl (gate_open left e (ground arith)))

  abbrev Whole : Completed → Type 0
  Whole (failed x) = Unit
  Whole (already a) = Unit
  Whole (completed files b) = Uncontested card q.agent × Done (completed files b)

  with_both : (r : Completed) → Uncontested card q.agent → Done r → Whole r
  with_both (failed x) u d = tt
  with_both (already a) u d = tt
  with_both (completed files b) u d = (u, d)

  task-Whole : Whole (complete_task card all_views precondition agents q)
  unfolding complete_task
  task-Whole = fenced (claim_conflict card q.agent) refl
    where
      fresh_or_not :
          (o : Option AgentFile)
          → Uncontested card q.agent
          → Whole (elim o as (λ _. Completed) [
            | some a ↦ already a
            | none ↦ complete_open all_views precondition agents q
          ])
      fresh_or_not (some a) u = tt
      fresh_or_not none u = with_both (complete_open all_views precondition agents q) u open-Done

      fenced :
          (r : Result Unit)
          → claim_conflict card q.agent ≡ r
          → Whole (elim r as (λ _. Completed) [
            | err x ↦ failed x
            | ok v ↦ elim (completed_by agents q.task_id) [
              | some a ↦ already a
              | none ↦ complete_open all_views precondition agents q
            ]
          ])
      fenced (err x) e = tt
      fenced (ok v) e = fresh_or_not (completed_by agents q.task_id) (no_conflict card q.agent e)

-- A completion goes through only if the store's card has no conflicting claim and no other owner, the
-- caller's precondition holds, and every dependency of the task is done in the views of all tasks. The
-- agent's file, which claimed no task twice, is replaced: it records the task as completed and does not
-- claim it any more, and the derived status of the task is done.
pub complete_task-granted :
    (card : Option Card) (all_views : List TaskView) (precondition : Result Unit)
    (agents : List AgentFile) (q : Completion) {files : List AgentFile} {b : AgentFile}
    → IsDistinct (file_of agents q).claimed_tasks
    → complete_task card all_views precondition agents q ≡ completed files b
    → Uncontested card q.agent
      × (precondition ≡ ok tt)
      × ((v : TaskView) × (look_up q.task_id (by_id [] all_views) ≡ some v)
          × AllDone all_views v.task.dependencies)
      × IsFinished agents files q b
complete_task-granted card all_views precondition agents q once h =
    let (free, (allowed, deps, finished)) =
      subst (Whole card all_views precondition agents q once) h
        (task-Whole card all_views precondition agents q once) in
    (free, allowed, deps, finished)
