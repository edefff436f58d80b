-- ===== src/Itil/Problem/Fold.antt =====
-- src/skcoord/itil.py: `_fold_problem`, in the form of `Incident/Fold`.
use skcoord.Prelude.{
  String, Bool, true, false, Option, none, some, List, [], ◌∷◌, foldl, contains, truthy, or_else,
  concat, py_str, append_one, ◌==◌, if◌then◌else◌, Result, ok, err, key_error,
}
use skcoord.Itil.Event.{Event, Entry, entry, conflict, add_missing}
use skcoord.Itil.Problem.Model.{Status, identified, value, parse_status, transitions, Core, Problem}

pub data Kind : Type 0 where
  created status root_cause workaround link_kedb link_change title tags gtd_link note silent : Kind

unfoldable pub kind_of : String → Kind
kind_of k =
    if k == "created"
    then Kind.created
    else if k == "status"
    then Kind.status
    else if k == "root_cause"
    then Kind.root_cause
    else if k == "workaround"
    then Kind.workaround
    else if k == "link_kedb"
    then Kind.link_kedb
    else if k == "link_change"
    then Kind.link_change
    else if k == "title"
    then Kind.title
    else if k == "tags"
    then Kind.tags
    else if k == "gtd_link"
    then Kind.gtd_link
    else if k == "note"
    then Kind.note
    else Kind.silent

-- The variables of the loop.
pub record State : Type 0 where
  pub status : Status
  pub timeline : List Entry
  pub root_cause : Option String
  pub workaround : Option String
  pub kedb_id : Option String
  pub related_change_id : Option String
  pub tags : List String
  pub gtd_ids : List String
  pub title : String
  pub seen_created : Bool

unfoldable pub start : Core → State
start core = record {
  status = identified;
  timeline = [];
  root_cause = core.root_cause;
  workaround = core.workaround;
  kedb_id = core.kedb_id;
  related_change_id = core.related_change_id;
  tags = core.tags;
  gtd_ids = [];
  title = core.title;
  seen_created = false;
}

-- The status that `to` names, if the table lets the problem go there.
unfoldable pub target : Status → Option String → Option Status
target from none = none
target from (some to) = elim (parse_status to) [
  | none ↦ none
  | some t ↦ if transitions from t then some t else none
]

abbrev pub log : State → Entry → State
log s x = record s { timeline = append_one s.timeline x }

-- "status:{status}->{to}"
abbrev pub status_action : State → Option String → String
status_action s to = concat ("status:" ∷ value s.status ∷ "->" ∷ py_str to ∷ [])

abbrev pub set_status : State → Event → Option Status → State
set_status s e none = log s (conflict e (status_action s e.to))
set_status s e (some t) = record (log s (entry e (status_action s e.to) e.note)) { status = t }

-- if e.get(key): field = e[key]
abbrev pub given : String → Option String → Option String
given new old = if truthy new then some new else old

unfoldable pub apply : Kind → State → Event → State
unfolding target
apply Kind.created s e =
    if s.seen_created then s else record (log s (entry e "created" e.note)) { seen_created = true }
apply Kind.status s e = set_status s e (target s.status e.to)
apply Kind.root_cause s e = record s { root_cause = given e.text s.root_cause }
apply Kind.workaround s e = record s { workaround = given e.text s.workaround }
apply Kind.link_kedb s e = record s { kedb_id = given e.id s.kedb_id }
apply Kind.link_change s e = record s { related_change_id = given e.id s.related_change_id }
apply Kind.title s e = record (log s (entry e "title" e.text)) {
  title = if truthy e.text then e.text else s.title;
}
apply Kind.tags s e = record s { tags = add_missing s.tags e.add }
apply Kind.gtd_link s e = record s {
  gtd_ids =
      if truthy e.id
      then (if contains e.id s.gtd_ids then s.gtd_ids else append_one s.gtd_ids e.id)
      else s.gtd_ids;
}
apply Kind.note s e = log s (entry e "note" e.note)
apply Kind.silent s e = s

unfoldable pub step : State → Event → State
unfolding apply kind_of
step s e = apply (kind_of e.kind) s e

unfoldable pub replay : Core → List Event → State
unfolding step start
replay core events = foldl step (start core) events

-- The record at the end: `core["id"]` may raise.
unfoldable pub finish : String → Core → State → Result Problem
finish now core s = elim core.id [
  | none ↦ err (key_error "id")
  | some id ↦ ok (record {
    id = id;
    title = s.title;
    status = s.status;
    root_cause = s.root_cause;
    workaround = s.workaround;
    managed_by = core.managed_by;
    created_by = core.created_by;
    created_at = or_else core.created_at now;
    related_incident_ids = core.related_incident_ids;
    related_change_id = s.related_change_id;
    kedb_id = s.kedb_id;
    gtd_item_ids = s.gtd_ids;
    timeline = s.timeline;
    tags = s.tags;
  })
]

unfoldable pub fold_problem : String → Core → List Event → Result Problem
unfolding replay finish
fold_problem now core events = finish now core (replay core events)
