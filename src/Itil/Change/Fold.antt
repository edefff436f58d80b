-- ===== src/Itil/Change/Fold.antt =====
-- src/skcoord/itil.py: the loop of `_fold_change`. The local variables are the record `State`, and
-- the chain on `kind` is a `Kind` and one clause of `apply` for each of its branches.
use skcoord.Prelude.{
  String, Bool, true, false, not, ◌&&◌, ◌||◌, Option, none, some, get_or, List, [], ◌∷◌, foldl,
  contains, truthy, or_else, concat, py_str, append_one, is_blank, ◌==◌, if◌then◌else◌,
}
use skcoord.Itil.Event.{Event, Entry, entry, conflict, add_missing}
use skcoord.Itil.Cab.{IsoTime, Vote}
use skcoord.Itil.Change.Model.{
  Status, proposed, reviewing, approved, scheduled, deployed, failed, value, parse_status,
  transitions, is_pending, Core, PullRequest, Validation, Window,
}
use skcoord.Itil.Change.Gate.{cab_resolved_status}

pub data Kind : Type 0 where
  created status link_problem title tags gtd_link note auto_approved pr_link validation : Kind
  schedule unschedule window_missed silent : Kind

unfoldable pub kind_of : String → Kind
kind_of k =
    if (k == "created" || k == "proposed")
    then Kind.created
    else if k == "status"
    then Kind.status
    else if k == "link_problem"
    then Kind.link_problem
    else if k == "title"
    then Kind.title
    else if k == "tags"
    then Kind.tags
    else if k == "gtd_link"
    then Kind.gtd_link
    else if k == "note"
    then Kind.note
    else if k == "auto-approved"
    then Kind.auto_approved
    else if k == "pr_link"
    then Kind.pr_link
    else if k == "validation"
    then Kind.validation
    else if k == "schedule"
    then Kind.schedule
    else if k == "unschedule"
    then Kind.unschedule
    else if k == "window_missed"
    then Kind.window_missed
    else Kind.silent

-- The variables of the loop.
pub record State : Type 0 where
  pub status : Status
  pub timeline : List Entry
  pub tags : List String
  pub gtd_ids : List String
  pub title : String
  pub related_problem_id : Option String
  pub seen_created : Bool
  pub prepared_pr : Option PullRequest
  pub prepared_by : Option String
  pub validation : Option Validation
  pub scheduled_window : Option Window

unfoldable pub start : Core → State
start core = record {
  status = proposed;
  timeline = [];
  tags = core.tags;
  gtd_ids = [];
  title = core.title;
  related_problem_id = core.related_problem_id;
  seen_created = false;
  prepared_pr = none;
  prepared_by = none;
  validation = none;
  scheduled_window = none;
}

abbrev pub log : State → Entry → State
log s x = record s { timeline = append_one s.timeline x }

-- "status:{from}->{to}"
abbrev pub status_action : Status → Option String → String
status_action from to = concat ("status:" ∷ value from ∷ "->" ∷ py_str to ∷ [])

-- The status that `to` names, if it is in the table's row of the gate.
unfoldable pub target : Status → Option String → Option Status
target from none = none
target from (some to) = elim (parse_status to) [
  | none ↦ none
  | some t ↦ if transitions from t then some t else none
]

-- to == text
abbrev pub is_to : Event → String → Bool
is_to e name = get_or e.to "" == name

abbrev pub pir_gated : Status → Event → Bool
pir_gated deployed e = is_to e "verified"
pir_gated _ e = false

abbrev pub rollback_gated : Status → Event → Bool
rollback_gated failed e = is_to e "closed"
rollback_gated _ e = false

-- The bypass guard: a live status event does not approve a pending change.
abbrev pub cab_gated : Status → Event → Bool
cab_gated gate e = is_to e "approved" && is_pending gate && not (e.node == "migrated")

-- A note that one of the two gated edges asks for is missing.
abbrev pub note_missing : Status → Event → Bool
note_missing gate e = (pir_gated gate e || rollback_gated gate e) && is_blank e.note

abbrev pub cab_reason : String
cab_reason =
    "CAB approval required: approval comes from a qualifying vote (submit_cab_vote) or a standard/auto-normal derivation, never from a raw status event"

-- The three ways to refuse, in the order of the source.
unfoldable pub refuse : Status → Event → Entry
refuse gate e =
    let x = conflict e (status_action gate e.to) in
    if cab_gated gate e
    then record x { conflict_reason = some cab_reason }
    else if note_missing gate e
    then record x {
      conflict_reason =
          some (if pir_gated gate e then "PIR note required" else "rollback note required");
    }
    else x

-- The transition of a status event, if the fold accepts it.
unfoldable pub accepted : Status → Event → Option Status
unfolding target
accepted gate e =
    if (not (note_missing gate e) && not (cab_gated gate e)) then target gate e.to else none

abbrev pub set_status : Status → State → Event → Option Status → State
set_status gate s e none = log s (refuse gate e)
set_status gate s e (some t) = record (log s (entry e (status_action gate e.to) e.note)) {
  status = t;
}

abbrev pub attach_pr : State → Event → State
attach_pr s e = record (log s (entry e "pr_link" (get_or e.url ""))) {
  prepared_pr =
      some (record { url = e.url; branch = e.branch; run_id = e.run_id; head_sha = e.head_sha });
  prepared_by = some e.writer;
}

-- A pass while still proposed moves the change to reviewing.
abbrev pub review_on_pass : Bool → Status → State → Event → State
review_on_pass true proposed s e =
    record (log s (entry e "status:proposed->reviewing" "validation passed")) { status = reviewing }
review_on_pass _ _ s e = s

abbrev pub validate : State → Event → State
validate s e =
    review_on_pass e.passed s.status
      (record (log s (entry e "validation" (if e.passed then "passed" else "failed"))) {
        validation = some (record {
          passed = e.passed;
          head_sha = e.head_sha;
          url = e.url;
          summary = e.summary;
          checks = e.checks;
        });
      })
      e

abbrev pub schedule_from : Status → State → Event → State
schedule_from approved s e =
    record (log s
      (entry e "status:approved->scheduled" (or_else e.note (if e.asap then "ASAP" else "")))) {
        status = scheduled;
        scheduled_window = some (record {
          window_start = e.window_start;
          window_end = e.window_end;
          asap = e.asap;
          deploy_mode = or_else e.deploy_mode "confirm";
        });
      }
schedule_from gate s e = log s (conflict e (concat ("schedule:" ∷ value gate ∷ [])))

-- `unschedule` and `window_missed`: their name in a conflict, and their default note.
abbrev pub leave_schedule : String → String → Status → State → Event → State
leave_schedule name default_note scheduled s e =
    record (log s (entry e "status:scheduled->approved" (or_else e.note default_note))) {
      status = approved;
      scheduled_window = none;
    }
leave_schedule name default_note from s e =
    log s (conflict e (concat (name ∷ ":" ∷ value from ∷ [])))

module _ (iso : String → IsoTime) (core : Core) (votes : List Vote) where
  -- gate_status
  abbrev pub gate : State → Status
  gate s = cab_resolved_status iso core votes s.status s.tags s.prepared_by

  unfoldable pub apply : Kind → State → Event → State
  unfolding accepted
  apply Kind.created s e =
      if s.seen_created
      then s
      else record (log s (entry e "proposed" e.note)) { seen_created = true }
  apply Kind.status s e = set_status (gate s) s e (accepted (gate s) e)
  apply Kind.link_problem s e = record s {
    related_problem_id = if truthy e.id then some e.id else s.related_problem_id;
  }
  apply Kind.title s e = record (log s (entry e "title" e.text)) {
    title = if truthy e.text then e.text else s.title;
  }
  apply Kind.tags s e = record s { tags = add_missing s.tags e.add }
  apply Kind.gtd_link s e = record s {
    gtd_ids =
        if truthy e.id
        then (if contains e.id s.gtd_ids then s.gtd_ids else append_one s.gtd_ids e.id)
        else s.gtd_ids;
  }
  apply Kind.note s e = log s (entry e "note" e.note)
  apply Kind.auto_approved s e = log s (entry e "auto-approved" e.note)
  apply Kind.pr_link s e = attach_pr s e
  apply Kind.validation s e = validate s e
  apply Kind.schedule s e = schedule_from (gate s) s e
  apply Kind.unschedule s e = leave_schedule "unschedule" "unscheduled" s.status s e
  apply Kind.window_missed s e = leave_schedule "window_missed" "window missed" s.status s e
  apply Kind.silent s e = s

  unfoldable pub step : State → Event → State
  unfolding apply kind_of
  step s e = apply (kind_of e.kind) s e

  unfoldable pub replay : List Event → State
  unfolding step start
  replay events = foldl step (start core) events
