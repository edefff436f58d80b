-- ===== src/Tests/Ledgers.antt =====
-- The memory of runs and the grades: the theorems on src/skcoord/coordination.py at concrete entries.
use skcoord.Prelude.{[], ◌∷◌, ℕ, String, none, some, pos}
use skcoord.Ledger.Model.{
  Attempt, Success, keyed_attempt, record_attempt, record_success, clear_attempts,
}
use skcoord.Ledger.Bounds.{IsBounded, starts, fails, clears, passes, no_memory, memory-IsBounded}
use skcoord.Ledger.Edits.{Fields, Update, update_task}
use skcoord.Ledger.Rewind.{TakesBack, update_task-rewind}
use skcoord.Ledger.Grade.{Grading}

abbrev red_build : String → Attempt
red_build why = record {
  run_id = "run-1";
  ts = "2026-09-01T00:00:00+00:00";
  round = 2;
  outcome = "ci_red";
  tried = "a new index";
  why_failed = why;
  replacement_hint = "";
}

abbrev green_build : Success
green_build = record {
  run_id = "run-2";
  ts = "2026-09-02T00:00:00+00:00";
  round = 1;
  outcome = "merged";
  tried = "a smaller index";
  why_succeeded = "the tests pass";
  approach_hint = "";
}

memory-IsBounded_example :
    IsBounded
      (clear_attempts (record_success green_build (record_attempt (red_build "lint") no_memory))).0
memory-IsBounded_example =
    memory-IsBounded (clears (passes green_build (fails (red_build "lint") starts)))

abbrev grading : Grading ℕ
grading = record {
  size = "M";
  risk = "high";
  sensitivity = "internal";
  joule_estimate = some (pos 40);
  joule_bounty = none;
  graded_by = "lumina";
  grader_model = "";
  rubric_version = pos 1;
  confidence = none;
  pool = "private";
  session_id = none;
  node = none;
}

abbrev draft_fields : Fields
draft_fields = record {
  description = "add an index";
  acceptance_criteria = "fast" ∷ [];
  tags = "db" ∷ "stale" ∷ [];
}

abbrev refresh : Update
refresh = record {
  description = some "add a smaller index";
  acceptance_criteria = none;
  add_tags = "ready" ∷ [];
  remove_tags = "stale" ∷ [];
  run_id = some "run-3";
}

update_task-rewind_example :
    TakesBack [] draft_fields (update_task "2026-09-03T00:00:00+00:00" refresh draft_fields [])
update_task-rewind_example = update_task-rewind "2026-09-03T00:00:00+00:00" refresh draft_fields []
