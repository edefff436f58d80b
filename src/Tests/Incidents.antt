-- ===== src/Tests/Incidents.antt =====
-- Incidents: the theorems on src/skcoord/itil.py's `_fold_incident` at concrete logs.
use mathlib.Core.List.{Permᴰ}
use skcoord.Prelude.{String, ◌≡◌, refl, none, some, List, [], ◌∷◌, append_one, arith}
use skcoord.Itil.Event.{Event, bare}
use skcoord.Itil.Incident.Model.{sev_rank, Core}
use skcoord.Itil.Incident.Fold.{replay}
use skcoord.Itil.Incident.Status.{Move, incident_status-Move}
use skcoord.Itil.Incident.Times.{TimesAgree, replay-TimesAgree}
use skcoord.Itil.Incident.Severity.{severity-perm}

abbrev incident_core : Core
incident_core = record {
  id = some "inc-1";
  title = "backup failed";
  severity_at_creation = "sev3";
  source = none;
  affected_services = "backup" ∷ [];
  impact = "";
  managed_by = "lumina";
  created_by = "lumina";
  detected_at = "2026-09-01T00:00:00+00:00";
  related_problem_id = none;
  tags = [];
}

abbrev moved : String → Event
moved to = record (bare "status") { to = some to; ts = "2026-09-02T00:00:00+00:00" }

abbrev raised : String → Event
raised to = record (bare "severity") { to = some to }

abbrev incident_log : List Event
incident_log = moved "resolved" ∷ moved "closed" ∷ bare "reopen" ∷ []

incident_status-Move_example :
    Move
      (replay incident_core incident_log).status
      (replay incident_core (append_one incident_log (bare "reopen"))).status
incident_status-Move_example = incident_status-Move incident_core incident_log (bare "reopen")

replay-TimesAgree_example : TimesAgree (replay incident_core incident_log)
replay-TimesAgree_example = replay-TimesAgree incident_core incident_log

severity-perm_example :
    (replay incident_core (raised "sev1" ∷ raised "sev2" ∷ [])).severity
    ≡ (replay incident_core (raised "sev2" ∷ raised "sev1" ∷ [])).severity
unfolding sev_rank
severity-perm_example =
    severity-perm incident_core (raised "sev1" ∷ raised "sev2" ∷ [])
      (raised "sev2" ∷ raised "sev1" ∷ []) (omega arith) ∣ Permᴰ.swap refl refl ∣₁
