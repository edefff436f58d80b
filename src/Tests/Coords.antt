-- ===== src/Tests/Coords.antt =====
-- The board: the theorems on src/skcoord/coordination.py at concrete agents and cards.
use skcoord.Prelude.{
  String, true, false, ◌≡◌, ◌≢◌, refl, Option, none, some, List, [], ◌∷◌, ok, contains, any_of,
  truthy, IsDistinct, look_up,
}
use skcoord.Card.Model.{doing, Card}
use skcoord.Card.Event.{Event, bare}
use skcoord.Card.Release.{current_claim_precondition}
use skcoord.Tests.Boards.{some_card}
use skcoord.Coord.Model.{AgentFile, Task, TaskView, fresh_agent, load_agent, save_agent, by_id}
use skcoord.Coord.Views.{task_status, claimed_map, legacy_task_view, legacy_task_views}
use skcoord.Coord.Claim.{Claim, claim_file, claim_task, find_view, refusal, claim_view, grant}
use skcoord.Coord.Release.{
  Release, Store, failed, released, release_held, release_claim, check_expected, claim_revision,
}
use skcoord.Coord.Complete.{
  Completion, complete_file, complete_task, claim_conflict, completed_by, complete_open,
  complete_held, completion_gate,
}
use skcoord.Coord.Steps.{begins, then_does, claims, completes, IsConsistent, past-IsConsistent}
use skcoord.Coord.Gates.{Free, AllDone, IsClaimed, claim_task-granted}
use skcoord.Coord.Finish.{Uncontested, IsFinished, complete_task-granted}
use skcoord.Coord.Freed.{event_of}
use skcoord.Coord.FileFreed.{IsFreed, release_claim-released}
use skcoord.Coord.Retry.{refusal_of, retry_marker-failed}

abbrev task : String → List String → Task
task name deps = record {
  id = name;
  title = "";
  tags = [];
  created_by = "lumina";
  created_at = "2026-09-01T00:00:00+00:00";
  dependencies = deps;
}

-- jarvis has done the first task, on which the second depends, and works on a third.
abbrev jarvis : AgentFile
jarvis = record (fresh_agent "jarvis") {
  claimed_tasks = "t3" ∷ [];
  completed_tasks = "t1" ∷ [];
  current_task = some "t3";
}

abbrev agents : List AgentFile
agents = jarvis ∷ []

abbrev views : List TaskView
views = legacy_task_views agents (task "t1" [] ∷ task "t2" ("t1" ∷ []) ∷ task "t3" [] ∷ [])

past-IsConsistent_example :
    IsConsistent
      (complete_file "t2" (claim_file true "t3" (claim_file false "t2" (fresh_agent "opus"))))
past-IsConsistent_example = past-IsConsistent "opus" (
    then_does (then_does (then_does begins (claims false "t2")) (claims true "t3"))
      (completes "t2"))

abbrev claim_of : Claim
claim_of = record { agent = "opus"; task_id = "t2"; drop_bumped_claim = false }

abbrev claimed_files : List AgentFile
claimed_files = save_agent (claim_file false "t2" (fresh_agent "opus")) agents

claim_task-granted_example :
    ((v : TaskView) × (find_view views "t2" ≡ some v)
      × Free "opus" v
      × AllDone views v.task.dependencies)
    × IsClaimed agents claimed_files claim_of (claim_file false "t2" (fresh_agent "opus"))
unfolding claim_task find_view claim_view refusal grant legacy_task_views legacy_task_view
    task_status claimed_map by_id load_agent look_up skcoord.Prelude.put
claim_task-granted_example =
    claim_task-granted views views none agents claim_of {bumped = none} refl

abbrev completion_of : Completion
completion_of = record { agent = "opus"; task_id = "t2" }

complete_task-granted_example :
    Uncontested none "opus"
    × (ok tt ≡ ok tt)
    × ((v : TaskView) × (look_up "t2" (by_id [] views) ≡ some v)
        × AllDone views v.task.dependencies)
    × IsFinished claimed_files
        (save_agent (complete_file "t2" (claim_file false "t2" (fresh_agent "opus"))) claimed_files)
        completion_of
        (complete_file "t2" (claim_file false "t2" (fresh_agent "opus")))
unfolding complete_task claim_conflict completed_by complete_open completion_gate complete_held
    legacy_task_views legacy_task_view task_status claimed_map by_id load_agent save_agent
    claim_file complete_file skcoord.Prelude.concat look_up skcoord.Prelude.put
complete_task-granted_example =
    complete_task-granted none views (ok tt) claimed_files completion_of (refl, tt) refl

-- A card that opus holds, and its release.
abbrev held_card : Card
held_card = record some_card {
  status = doing;
  owner = some "opus";
  meta = record (some_card.meta) { claim_revision = some "r1" };
}

abbrev store_of : Card → List Event → Store
store_of c events = record {
  write_enabled = true;
  folded = some (record { card = c; voided = false });
  events = events;
  has_core = true;
}

abbrev release_by_opus : Release
release_by_opus = record {
  owner = "opus";
  task_id = "t2";
  actor = "opus";
  expected_claim_revision = none;
  allow_missing_card_store = false;
}

-- The file of an agent that works on one task and has claimed another.
abbrev busy_file : AgentFile
busy_file = record (fresh_agent "opus") {
  current_task = some "t2";
  claimed_tasks = "t1" ∷ "t2" ∷ [];
}

abbrev desk_files : List AgentFile
desk_files = fresh_agent "lumina" ∷ busy_file ∷ []

release_claim-released_example :
    (files : List AgentFile) × (b : AgentFile) × (release_claim
        (store_of held_card [])
        desk_files
        release_by_opus
      ≡ released files (some (event_of release_by_opus "r1")))
    × IsFreed release_by_opus desk_files files busy_file b
unfolding load_agent claim_revision check_expected current_claim_precondition
release_claim-released_example =
    release_claim-released (store_of held_card []) (record { card = held_card; voided = false })
      desk_files release_by_opus refl refl refl refl refl refl refl

-- The release that was mirrored before, with the board still showing the claim, on a card that is
-- back in the backlog.
abbrev old_events : List Event
old_events =
    record (bare "release_claim") {
      writer = some "opus";
      released_owner = some "opus";
      expected_claim_revision = some "r1";
    }
    ∷ []

retry_marker-failed_example :
    release_held (store_of some_card old_events) release_by_opus [] ≡ failed (refusal_of none)
unfolding current_claim_precondition
retry_marker-failed_example =
    retry_marker-failed (store_of some_card old_events)
      (record { card = some_card; voided = false }) release_by_opus [] refl refl refl refl
