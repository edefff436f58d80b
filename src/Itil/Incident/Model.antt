-- ===== src/Itil/Incident/Model.antt =====
-- src/skcoord/itil.py: the incident lifecycle, the severities, and the incident record.
use skcoord.Prelude.{
  ℕ, String, Bool, true, false, Option, none, some, List, leb, ◌==◌, if◌then◌else◌,
}
use skcoord.Itil.Event.{Entry}

pub data Status : Type 0 where
  detected acknowledged investigating escalated resolved closed : Status

abbrev pub value : Status → String
value detected = "detected"
value acknowledged = "acknowledged"
value investigating = "investigating"
value escalated = "escalated"
value resolved = "resolved"
value closed = "closed"

-- The status that a text names.
unfoldable pub parse_status : String → Option Status
parse_status s =
    if s == "detected"
    then some detected
    else if s == "acknowledged"
    then some acknowledged
    else if s == "investigating"
    then some investigating
    else if s == "escalated"
    then some escalated
    else if s == "resolved"
    then some resolved
    else if s == "closed"
    then some closed
    else none

-- _INCIDENT_TRANSITIONS: whether the second status is in the row of the first.
abbrev pub transitions : Status → Status → Bool
transitions detected acknowledged = true
transitions detected escalated = true
transitions detected resolved = true
transitions acknowledged investigating = true
transitions acknowledged escalated = true
transitions acknowledged resolved = true
transitions investigating escalated = true
transitions investigating resolved = true
transitions escalated investigating = true
transitions escalated resolved = true
transitions resolved closed = true
transitions _ _ = false

-- _SEV_RANK.get(severity, 0)
unfoldable pub sev_rank : String → ℕ
sev_rank s =
    if s == "sev1"
    then 4
    else if s == "sev2"
    then 3
    else if s == "sev3"
    then 2
    else if s == "sev4"
    then 1
    else 0

-- _max_severity. An absent second severity has rank 0, which wins over nothing.
unfoldable pub max_severity : String → Option String → String
max_severity a none = a
max_severity a (some b) = if leb (sev_rank b) (sev_rank a) then a else b

-- Severity(text), which raises ValueError on any other text
abbrev pub is_severity : String → Bool
is_severity s = leb 1 (sev_rank s)

-- core.json
pub record Core : Type 0 where
  pub id : Option String
  pub title : String
  pub severity_at_creation : String
  pub source : Option String
  pub affected_services : List String
  pub impact : String
  pub managed_by : String
  pub created_by : String
  pub detected_at : String
  pub related_problem_id : Option String
  pub tags : List String

-- The record that the fold returns.
pub record Incident : Type 0 where
  pub id : String
  pub title : String
  pub severity : String
  pub status : Status
  pub source : String
  pub affected_services : List String
  pub impact : String
  pub managed_by : String
  pub created_by : String
  pub detected_at : String
  pub acknowledged_at : Option String
  pub resolved_at : Option String
  pub closed_at : Option String
  pub timeline : List Entry
  pub related_problem_id : Option String
  pub gtd_item_ids : List String
  pub resolution_summary : Option String
  pub tags : List String
