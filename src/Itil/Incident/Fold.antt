-- ===== src/Itil/Incident/Fold.antt =====
-- src/skcoord/itil.py: `_fold_incident`. The local variables are the record `State`, and the chain on
-- `kind` is a `Kind` and one clause of `apply` for each of its branches.
use skcoord.Prelude.{
  String, Bool, true, false, Option, none, some, get_or, List, [], ◌∷◌, foldl, contains, truthy,
  is_set, or_else, concat, py_str, append_one, ◌==◌, ◌||◌, if◌then◌else◌, Result, ok, err,
  key_error, value_error,
}
use skcoord.Itil.Event.{Event, Entry, entry, conflict, add_missing}
use skcoord.Itil.Incident.Model.{
  Status, detected, acknowledged, investigating, resolved, closed, value, parse_status, transitions,
  max_severity, is_severity, Core, Incident,
}

pub data Kind : Type 0 where
  created status reopen severity ack resolution link_problem title assignment tags gtd_link : Kind
  note silent : Kind

unfoldable pub kind_of : String → Kind
kind_of k =
    if k == "created"
    then Kind.created
    else if k == "status"
    then Kind.status
    else if k == "reopen"
    then Kind.reopen
    else if k == "severity"
    then Kind.severity
    else if k == "ack"
    then Kind.ack
    else if k == "resolution"
    then Kind.resolution
    else if k == "link_problem"
    then Kind.link_problem
    else if k == "title"
    then Kind.title
    else if k == "assignment"
    then Kind.assignment
    else if k == "tags"
    then Kind.tags
    else if k == "gtd_link"
    then Kind.gtd_link
    else if (k == "note" || k == "recovery")
    then Kind.note
    else Kind.silent

-- The variables of the loop.
pub record State : Type 0 where
  pub status : Status
  pub severity : String
  pub timeline : List Entry
  pub acknowledged_at : Option String
  pub resolved_at : Option String
  pub closed_at : Option String
  pub resolution_summary : Option String
  pub related_problem_id : Option String
  pub tags : List String
  pub gtd_ids : List String
  pub title : String
  pub managed_by : String
  pub seen_created : Bool

unfoldable pub start : Core → State
start core = record {
  status = detected;
  severity = or_else core.severity_at_creation "sev3";
  timeline = [];
  acknowledged_at = none;
  resolved_at = none;
  closed_at = none;
  resolution_summary = none;
  related_problem_id = core.related_problem_id;
  tags = core.tags;
  gtd_ids = [];
  title = core.title;
  managed_by = core.managed_by;
  seen_created = false;
}

-- The status that `to` names, if the table lets the incident go there.
unfoldable pub target : Status → Option String → Option Status
target from none = none
target from (some to) = elim (parse_status to) [
  | none ↦ none
  | some t ↦ if transitions from t then some t else none
]

-- `stamp` if nothing was stored before: a field set with `if not field: field = ts`.
abbrev pub first_stamp : Option String → String → Option String
first_stamp old ts = if is_set old then old else some ts

-- An accepted transition: the status, and what the branches on `to` record.
unfoldable pub go : State → Event → Status → State
go s e acknowledged = record s {
  status = acknowledged;
  acknowledged_at = first_stamp s.acknowledged_at e.ts;
}
go s e resolved = record s {
  status = resolved;
  resolved_at = first_stamp s.resolved_at e.ts;
  resolution_summary =
      if truthy e.resolution_summary then some e.resolution_summary else s.resolution_summary;
}
go s e closed = record s { status = closed; closed_at = first_stamp s.closed_at e.ts }
go s e t = record s { status = t }

-- "status:{status}->{to}"
abbrev pub status_action : State → Option String → String
status_action s to = concat ("status:" ∷ value s.status ∷ "->" ∷ py_str to ∷ [])

abbrev pub log : State → Entry → State
log s x = record s { timeline = append_one s.timeline x }

abbrev pub set_status : State → Event → Option Status → State
set_status s e none = log s (conflict e (status_action s e.to))
set_status s e (some t) = go (log s (entry e (status_action s e.to) e.note)) e t

abbrev pub reopen_from : Status → State → Event → State
reopen_from resolved s e =
    record (log s (entry e "status:resolved->investigating" (or_else e.note "reopened"))) {
      status = investigating;
      resolved_at = none;
      resolution_summary = none;
    }
reopen_from from s e = log s (conflict e (concat ("reopen:" ∷ value from ∷ [])))

abbrev pub assign : State → Event → String → State
assign s e to =
    if truthy to
    then record (log s (entry e (concat ("managed_by:" ∷ s.managed_by ∷ "->" ∷ to ∷ [])) e.note)) {
      managed_by = to;
    }
    else s

unfoldable pub apply : Kind → State → Event → State
unfolding target go
apply Kind.created s e =
    if s.seen_created then s else record (log s (entry e "created" e.note)) { seen_created = true }
apply Kind.status s e = set_status s e (target s.status e.to)
apply Kind.reopen s e = reopen_from s.status s e
apply Kind.severity s e =
    record (log s (entry e (concat ("severity:" ∷ s.severity ∷ "->" ∷ py_str e.to ∷ [])) e.note)) {
      severity = max_severity s.severity e.to;
    }
apply Kind.ack s e = record (log s (entry e "acknowledged" e.note)) {
  acknowledged_at = first_stamp s.acknowledged_at e.ts;
}
apply Kind.resolution s e = record s {
  resolution_summary =
      if truthy e.resolution_summary then some e.resolution_summary else s.resolution_summary;
}
apply Kind.link_problem s e = record s {
  related_problem_id = if truthy e.id then some e.id else s.related_problem_id;
}
apply Kind.title s e = record (log s (entry e "title" e.text)) {
  title = if truthy e.text then e.text else s.title;
}
apply Kind.assignment s e = assign s e (get_or e.to "")
apply Kind.tags s e = record s { tags = add_missing s.tags e.add }
apply Kind.gtd_link s e = record s {
  gtd_ids =
      if truthy e.id
      then (if contains e.id s.gtd_ids then s.gtd_ids else append_one s.gtd_ids e.id)
      else s.gtd_ids;
}
apply Kind.note s e = log s (entry e "note" e.note)
apply Kind.silent s e = s

unfoldable pub step : State → Event → State
unfolding apply kind_of
step s e = apply (kind_of e.kind) s e

unfoldable pub replay : Core → List Event → State
unfolding step start
replay core events = foldl step (start core) events

-- The record at the end: `core["id"]` and `Severity(severity)` may raise.
unfoldable pub finish : String → Core → State → Result Incident
finish now core s = elim core.id [
  | none ↦ err (key_error "id")
  | some id ↦
      if is_severity s.severity
      then ok (record {
        id = id;
        title = s.title;
        severity = s.severity;
        status = s.status;
        source = get_or core.source "manual";
        affected_services = core.affected_services;
        impact = core.impact;
        managed_by = s.managed_by;
        created_by = core.created_by;
        detected_at = or_else core.detected_at now;
        acknowledged_at = s.acknowledged_at;
        resolved_at = s.resolved_at;
        closed_at = s.closed_at;
        timeline = s.timeline;
        related_problem_id = s.related_problem_id;
        gtd_item_ids = s.gtd_ids;
        resolution_summary = s.resolution_summary;
        tags = s.tags;
      })
      else err (value_error s.severity)
]

unfoldable pub fold_incident : String → Core → List Event → Result Incident
unfolding replay finish
fold_incident now core events = finish now core (replay core events)
