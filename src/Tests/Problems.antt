-- ===== src/Tests/Problems.antt =====
-- Problems: the theorems on src/skcoord/itil.py's `_fold_problem` at concrete logs.
use skcoord.Prelude.{String, none, some, [], ◌∷◌, List}
use skcoord.Itil.Event.{Event, bare}
use skcoord.Itil.Problem.Model.{Core}

abbrev moved : String → Event
moved to = record (bare "status") { to = some to; ts = "2026-09-02T00:00:00+00:00" }

abbrev problem_core : Core
problem_core = record {
  id = some "prb-1";
  title = "backups fail on Sundays";
  root_cause = none;
  workaround = none;
  managed_by = "lumina";
  created_by = "lumina";
  created_at = "2026-09-01T00:00:00+00:00";
  related_incident_ids = "inc-1" ∷ [];
  related_change_id = none;
  kedb_id = none;
  tags = [];
}

abbrev problem_log : List Event
problem_log = moved "analyzing" ∷ moved "known_error" ∷ []
