-- ===== src/Coord/Gates.antt =====
-- src/skcoord/coordination.py: when a claim and a completion are granted, and what they leave.
use skcoord.Prelude.{
  not, ◌&&◌, String, ◌≡◌, refl, sym, ap, ◌∙◌, subst, Bool, true, false, ◌⊎◌, inl, inr, Option, none,
  some, get_or, List, [], ◌∷◌, arith, ◌==◌, eq_iff, All, any_of, contains, truthy, opt_eq, look_up,
  eq_of_opt_eq, Bool-cases,
}
use skcoord.Card.Model.{Card}
use skcoord.Coord.Model.{
  in_progress, done, AgentFile, TaskView, fresh_agent, is_done, load_agent, save_agent, by_id,
}
use skcoord.Coord.Views.{has_completed, works_on, claimed_map, task_status, is_done_in}
use skcoord.Coord.Claim.{
  Reason, bumped_by, without, find_view, is_active, is_taken, incomplete, is_none_left, refusal,
  claim_file, Claimed, refused, granted, Claim, own_file, grant, claim_view, claim_task,
  unclaimable_absent,
}
use skcoord.Coord.Steps.{added-holds}
use skcoord.Coord.Shown.{
  claims_task, save_agent-any, save_agent-none, load_agent-none, load-save, Alone,
  claimed_map-last_claimant, last_claimant-save,
}

-- Every dependency of the list is done in the views.
abbrev pub AllDone : List TaskView → List String → Type 0
AllDone all_views ids = All (λ id. is_done_in (by_id [] all_views) id ≡ true) ids

pub none_incomplete :
    (all_views : List TaskView) (ids : List String)
    → is_none_left (incomplete all_views ids) ≡ true
    → AllDone all_views ids
none_incomplete all_views [] h = tt
none_incomplete all_views (id ∷ ids) h = elim (Bool-cases (is_done_in (by_id [] all_views) id)) [
  | inl finished ↦ (finished, none_incomplete all_views ids (rw finished at h))
  | inr missing ↦ absurd (ground arith)
]

-- The task was free for the agent: it was the agent's own, or it was not done, and unowned or not taken
-- up.
abbrev pub Free : String → TaskView → Type 0
Free agent v =
    (v.claimed_by ≡ some agent)
    ⊎ (is_done v.status ≡ false) × ((v.claimed_by ≡ none) ⊎ (is_active v.status ≡ false))

not_taken : (agent : String) (v : TaskView) → is_taken agent v ≡ false → Free agent v
not_taken agent v h = elim (Bool-cases (opt_eq v.claimed_by (some agent))) [
  | inl own ↦ inl (eq_of_opt_eq v.claimed_by (some agent) own)
  | inr other ↦ inr (ground arith, unowned v.claimed_by refl other)
]
  where
    unowned :
        (o : Option String)
        → v.claimed_by ≡ o
        → opt_eq v.claimed_by (some agent) ≡ false
        → (v.claimed_by ≡ none) ⊎ (is_active v.status ≡ false)
    unowned none p other = inl p
    unowned (some x) p other = inr (ground arith)

-- Another agent claims the task.
abbrev pub is_rival : String → String → AgentFile → Bool
is_rival name id a = not (a.agent == name) && claims_task id a

no_rival :
    (name id : String) (agents : List AgentFile)
    → any_of (is_rival name id) agents ≡ false
    → Alone name id agents
no_rival name id [] h = tt
no_rival name id (a ∷ agents) h = (λ other. ground arith, no_rival name id agents (ground arith))

-- The files after a claim: the agent's own has the task as its current one, and the views show it.
pub record IsClaimed (agents files : List AgentFile) (q : Claim) (b : AgentFile) : Type 0 where
  pub saved : load_agent files q.agent ≡ some b
  pub current : b.current_task ≡ some q.task_id
  pub held : contains q.task_id b.claimed_tasks ≡ true
  pub completed : b.completed_tasks ≡ (own_file agents q).completed_tasks
  pub shown :
      (truthy q.task_id ≡ false)
      ⊎ (any_of (has_completed q.task_id) agents ≡ true)
      ⊎ (task_status files q.task_id ≡ in_progress)
  pub claimant :
      (truthy q.task_id ≡ false)
      ⊎ (any_of (is_rival q.agent q.task_id) agents ≡ true)
      ⊎ (look_up q.task_id (claimed_map files) ≡ some q.agent)

pub load_agent-name :
    (agents : List AgentFile) (name : String) {a : AgentFile}
    → load_agent agents name ≡ some a
    → a.agent ≡ name
unfolding load_agent
load_agent-name [] name h = cc
load_agent-name (b ∷ agents) name h = elim (Bool-cases (b.agent == name)) [
  | inl same ↦ ground (arith, eq_iff b.agent name)
  | inr other ↦ load_agent-name agents name (rw other at h)
]

-- The agent's own file, or a new one, has its name, and has completed nothing that no one has.
pub own_file-name :
    (name : String) (agents : List AgentFile) (o : Option AgentFile)
    → load_agent agents name ≡ o
    → (get_or o (fresh_agent name)).agent ≡ name
own_file-name name agents none p = refl
own_file-name name agents (some a) p = load_agent-name agents name p

own_file-completed :
    (id name : String) (agents : List AgentFile) (o : Option AgentFile)
    → load_agent agents name ≡ o
    → any_of (has_completed id) agents ≡ false
    → has_completed id (get_or o (fresh_agent name)) ≡ false
own_file-completed id name agents none p h = refl
own_file-completed id name agents (some a) p h = load_agent-none (has_completed id) agents name h p

in_progress_of :
    (agents : List AgentFile) (id : String)
    → any_of (has_completed id) agents ≡ false
    → any_of (works_on id) agents ≡ true
    → task_status agents id ≡ in_progress
unfolding task_status
in_progress_of agents id h k = rw (h, k) refl

pub done_of :
    (agents : List AgentFile) (id : String)
    → any_of (has_completed id) agents ≡ true
    → task_status agents id ≡ done
unfolding task_status
done_of agents id h = rw h refl

-- The file that a claim writes.
claim_file_lem :
    (drop : Bool) (id : String) (a : AgentFile)
    → (contains id (claim_file drop id a).claimed_tasks ≡ true)
      × (truthy id ≡ true → works_on id (claim_file drop id a) ≡ true)
unfolding claim_file
claim_file_lem true id a = (
  added-holds id (without (bumped_by id a.current_task) a.claimed_tasks),
  λ t. ground (arith, eq_iff id id),
)
claim_file_lem false id a = (added-holds id a.claimed_tasks, λ t. ground (arith, eq_iff id id))

claim-IsClaimed :
    (agents : List AgentFile) (q : Claim)
    → IsClaimed agents
        (save_agent (claim_file q.drop_bumped_claim q.task_id (own_file agents q)) agents)
        q
        (claim_file q.drop_bumped_claim q.task_id (own_file agents q))
unfolding claim_file
claim-IsClaimed agents q =
    let a = own_file agents q in
    let b = claim_file q.drop_bumped_claim q.task_id a in
    let (held, works) = claim_file_lem q.drop_bumped_claim q.task_id a in
    record {
      saved = subst (λ n. load_agent (save_agent b agents) n ≡ some b) name (load-save b agents);
      current = kept.0;
      held = held;
      completed = kept.1;
      shown = elim (Bool-cases (truthy q.task_id)) [
        | inr unset ↦ inl unset
        | inl set ↦ elim (Bool-cases (any_of (has_completed q.task_id) agents)) [
          | inl over ↦ inr (inl over)
          | inr h ↦ inr (
              inr (
                in_progress_of (save_agent b agents) q.task_id
                  (save_agent-none (has_completed q.task_id) b agents (not_yet h) h)
                  (save_agent-any (works_on q.task_id) b agents (works set))))
        ]
      ];
      claimant = elim (Bool-cases (truthy q.task_id)) [
        | inr unset ↦ inl unset
        | inl set ↦ elim (Bool-cases (any_of (is_rival q.agent q.task_id) agents)) [
          | inl contested ↦ inr (inl contested)
          | inr h ↦ inr (
              inr (
                claimed_map-last_claimant q.task_id (save_agent b agents)
                ∙ last_claimant-save b q.task_id none agents (ground (arith, held)) (
                    subst (λ n. Alone n q.task_id agents) (sym name)
                      (no_rival q.agent q.task_id agents h))
                ∙ ap some name))
        ]
      ];
    }
  where
    kept :
        ((claim_file q.drop_bumped_claim q.task_id (own_file agents q)).current_task
          ≡ some q.task_id)
        × ((claim_file q.drop_bumped_claim q.task_id (own_file agents q)).completed_tasks
            ≡ (own_file agents q).completed_tasks)
    kept = (refl, refl)

    name : (claim_file q.drop_bumped_claim q.task_id (own_file agents q)).agent ≡ q.agent
    name = own_file-name q.agent agents (load_agent agents q.agent) refl

    not_yet :
        any_of (has_completed q.task_id) agents ≡ false
        → has_completed q.task_id (claim_file q.drop_bumped_claim q.task_id (own_file agents q))
          ≡ false
    not_yet h = own_file-completed q.task_id q.agent agents (load_agent agents q.agent) refl h

module _ (views all_views : List TaskView) (card : Option Card) (agents : List AgentFile)
    (q : Claim) where
  -- What a result of the claim says, if it is granted.
  abbrev Granted : Claimed → Type 0
  Granted (refused r) = Unit
  Granted (granted files b bumped) =
      ((v : TaskView) × (find_view views q.task_id ≡ some v)
        × Free q.agent v
        × AllDone all_views v.task.dependencies)
      × IsClaimed agents files q b

  open_refusal :
      (v : TaskView)
      → refusal all_views q.agent v ≡ none
      → Free q.agent v × AllDone all_views v.task.dependencies
  unfolding refusal
  open_refusal v h = elim (Bool-cases (is_taken q.agent v)) [
    | inl taken ↦ absurd (ground arith)
    | inr free ↦
        (not_taken q.agent v free, none_incomplete all_views v.task.dependencies (ground arith))
  ]

  view-Granted :
      (v : TaskView)
      → find_view views q.task_id ≡ some v
      → Granted (claim_view all_views agents q v)
  unfolding claim_view grant
  view-Granted v found = shown (refusal all_views q.agent v) refl
    where
      shown :
          (o : Option Reason)
          → refusal all_views q.agent v ≡ o
          → Granted (elim o as (λ _. Claimed) [ none ↦ grant agents q | some r ↦ refused r ])
      shown none p =
          let (free, finished) = open_refusal v p in
          ((v, found, free, finished), claim-IsClaimed agents q)
      shown (some r) p = tt

  task-Granted : Granted (claim_task views all_views card agents q)
  unfolding claim_task
  task-Granted = shown (find_view views q.task_id) refl
    where
      shown :
          (o : Option TaskView)
          → find_view views q.task_id ≡ o
          → Granted (elim o as (λ _. Claimed) [
            | none ↦ refused (unclaimable_absent card)
            | some v ↦ claim_view all_views agents q v
          ])
      shown none p = tt
      shown (some v) p = view-Granted v p

-- A claim is granted only for a task that the board shows, that is free for the agent (its own, or not
-- done and unowned or not taken up), and whose dependencies are all done, archived ones included. The
-- agent's file that is written has the task as its current one and among the claimed, and has the
-- completed tasks of before. Unless the task's id is empty, its derived status is then in progress, or
-- an agent had completed it; and its derived claimant is the agent, or another agent claims it too.
pub claim_task-granted :
    (views all_views : List TaskView) (card : Option Card) (agents : List AgentFile) (q : Claim)
    {files : List AgentFile} {b : AgentFile} {bumped : Option String}
    → claim_task views all_views card agents q ≡ granted files b bumped
    → ((v : TaskView) × (find_view views q.task_id ≡ some v)
        × Free q.agent v
        × AllDone all_views v.task.dependencies)
      × IsClaimed agents files q b
claim_task-granted views all_views card agents q h =
    subst (Granted views all_views card agents q) h (task-Granted views all_views card agents q)
