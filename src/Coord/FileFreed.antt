-- ===== src/Coord/FileFreed.antt =====
-- src/skcoord/coordination.py: what `_release_claim_locked` leaves of the agent files.
use skcoord.Prelude.{
  String, ◌≡◌, refl, sym, ap, ◌∙◌, subst, Bool, true, false, not, ◌&&◌, ◌||◌, Option, none, some,
  List, [], ◌∷◌, ◌==◌, arith, eq_iff, contains, truthy, opt_eq, keep_if, if◌then◌else◌, ok,
  value_error,
}
use skcoord.Card.Fold.{State}
use skcoord.Coord.Model.{AgentFile, load_agent, save_agent}
use skcoord.Coord.Release.{
  Release, Store, claim_revision, Released, failed, not_held, released, release_file, release_held,
  release_claim,
}
use skcoord.Coord.Shown.{load-save}
use skcoord.Coord.Gates.{load_agent-name}
use skcoord.Coord.Freed.{event_of, held-released}

-- No other agent's file is touched by a file that is saved.
load-save_other :
    (a : AgentFile) (agents : List AgentFile) (name : String)
    → (a.agent == name) ≡ false
    → load_agent (save_agent a agents) name ≡ load_agent agents name
unfolding load_agent save_agent
load-save_other a [] name h = ground arith
load-save_other a (b ∷ agents) name h =
    ground (arith, load-save_other a agents name h, eq_iff a.agent b.agent, eq_iff b.agent name)

dropped-none :
    (id : String) (ids : List String) → contains id (keep_if (λ x. not (x == id)) ids) ≡ false
dropped-none id [] = refl
dropped-none id (x ∷ ids) = ground (arith, dropped-none id ids, eq_iff x id, eq_iff id x)

dropped-others :
    (id other : String) (ids : List String)
    → (other == id) ≡ false
    → contains other (keep_if (λ x. not (x == id)) ids) ≡ contains other ids
dropped-others id other [] h = refl
dropped-others id other (x ∷ ids) h =
    ground (arith, dropped-others id other ids h, eq_iff x id, eq_iff other x, eq_iff other id)

released-not_current :
    (id : String) (o : Option String)
    → opt_eq (if opt_eq o (some id) then none else o) (some id) ≡ false
released-not_current id o = ground arith

-- The owner's file behind the release.
pub record IsFreed (q : Release) (agents files : List AgentFile) (before after : AgentFile)
    : Type 0 where
  pub saved : load_agent files q.owner ≡ some after
  pub unclaimed : contains q.task_id after.claimed_tasks ≡ false
  pub not_current : opt_eq after.current_task (some q.task_id) ≡ false
  pub others_claimed :
      (id : String)
      → (id == q.task_id) ≡ false
      → contains id after.claimed_tasks ≡ contains id before.claimed_tasks
  pub completed_kept : after.completed_tasks ≡ before.completed_tasks
  pub others_kept :
      (name : String) → (q.owner == name) ≡ false → load_agent files name ≡ load_agent agents name

file-IsFreed :
    (q : Release) (agents : List AgentFile) (a : AgentFile)
    → a.agent ≡ q.owner
    → IsFreed q agents (save_agent (release_file q.task_id a) agents) a (release_file q.task_id a)
unfolding release_file
file-IsFreed q agents a name =
    let b = release_file q.task_id a in
    record {
      saved = subst (λ n. load_agent (save_agent b agents) n ≡ some b) name (load-save b agents);
      unclaimed = dropped-none q.task_id a.claimed_tasks;
      not_current = released-not_current q.task_id a.current_task;
      others_claimed = λ id. dropped-others q.task_id id a.claimed_tasks;
      completed_kept = refl;
      others_kept = λ other h.
          load-save_other b agents other (subst (λ n. (n == other) ≡ false) (sym name) h);
    }

-- The release of a claim that the owner's file holds, where it passes the checks on its revision, never
-- ends in the RuntimeError: on a card that is not voided, with the release event merged last, the
-- store's fold reaches the state that the call checks for, and the call returns with the event appended.
-- The owner's file then neither claims the task nor has it as its current task, its other claims and its
-- completed tasks stand, and every other agent's file is as it was.
pub release_claim-released :
    (st : Store) (s : State) (agents : List AgentFile) (q : Release) {a : AgentFile}
    {revision : String}
    → truthy q.owner ≡ true
    → load_agent agents q.owner ≡ some a
    → (contains q.task_id a.claimed_tasks || opt_eq a.current_task (some q.task_id)) ≡ true
    → st.write_enabled ≡ true
    → st.folded ≡ some s
    → s.voided ≡ false
    → claim_revision st q ≡ ok (some revision)
    → (files : List AgentFile) × (b : AgentFile) × (release_claim st agents q
        ≡ released files (some (event_of q revision)))
      × IsFreed q agents files a b
unfolding release_claim
release_claim-released st s agents q {a} {revision} named loaded holds enabled folded live h =
    let files = save_agent (release_file q.task_id a) agents in
    (
      files,
      release_file q.task_id a,
      ap answer loaded
          ∙ ap (λ (b : Bool). if b then not_held else release_held st q files) found
          ∙ held-released st s q files named enabled folded live h,
      file-IsFreed q agents a (load_agent-name agents q.owner loaded),
    )
  where
    found :
        (not (contains q.task_id a.claimed_tasks) && not (opt_eq a.current_task (some q.task_id)))
        ≡ false
    found = ground arith

    answer : Option AgentFile → Released
    answer none = failed (value_error "claim owner not found")
    answer (some b) =
        if (not (contains q.task_id b.claimed_tasks)
          && not (opt_eq b.current_task (some q.task_id)))
        then not_held
        else release_held st q (save_agent (release_file q.task_id b) agents)
