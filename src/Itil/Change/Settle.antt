-- ===== src/Itil/Change/Settle.antt =====
-- src/skcoord/itil.py: the part of `_fold_change` behind its loop, which derives approval and
-- rejection from the change type, the tags and the votes.
use skcoord.Prelude.{
  String, Bool, true, false, not, ◌&&◌, none, some, get_or, List, [], ◌∷◌, ◌==◌, map, or_else,
  concat, join, max_text, keep_if, any_of, if◌then◌else◌, Result, ok, err, key_error, value_error,
}
use skcoord.Itil.Event.{Event, Entry}
use skcoord.Itil.Cab.{IsoTime, Vote, is_rejection, is_human_approval}
use skcoord.Itil.Change.Model.{
  Status, proposed, approved, rejected, is_pending, is_change_type, is_risk, Core, Change,
}
use skcoord.Itil.Change.Gate.{change_type_of, auto_normal, approvals, human_approved}
use skcoord.Itil.Change.Fold.{State, log, replay}

-- status == "proposed"
abbrev pub is_proposed : Status → Bool
is_proposed proposed = true
is_proposed _ = false

abbrev pub note_of : String → String → String → String → Entry
note_of ts agent action note = record {
  ts = ts;
  agent = agent;
  action = action;
  note = note;
  conflicted = false;
  conflict_reason = none;
}

unfoldable pub settle_standard : String → Core → State → State
settle_standard now core s =
    if (change_type_of core == "standard" && is_proposed s.status)
    then record (log s
        (note_of (or_else core.created_at now) core.created_by "auto-approved" "Standard change")) {
          status = approved;
        }
    else s

unfoldable pub settle_auto_normal : String → Core → List Vote → State → State
settle_auto_normal now core votes s =
    if (change_type_of core == "normal" && is_proposed s.status && auto_normal core s.tags votes)
    then record (log s (
        note_of (or_else core.created_at now) "operator" "auto-approved"
          "Auto-normal (operator, risk!=high, rollback, no reject)")) { status = approved }
    else s

-- max(v.decided_at for v in votes), of votes that are some
abbrev pub last_decision : List Vote → String
last_decision [] = ""
last_decision (v ∷ votes) = max_text v.decided_at (map (λ (w : Vote). w.decided_at) votes)

-- prefix + ", ".join(v.agent for v in votes)
abbrev pub by_agents : String → List Vote → String
by_agents prefix votes = concat (prefix ∷ join ", " (map (λ (v : Vote). v.agent) votes) ∷ [])

module _ (iso : String → IsoTime) where
  unfoldable pub settle_cab : List Vote → State → State
  unfolding human_approved
  settle_cab votes s =
      let rejections = keep_if is_rejection votes in
      let counted = approvals s.prepared_by votes in
      if not (is_pending s.status)
      then s
      else if any_of is_rejection votes
      then record (log s (
          note_of (last_decision rejections) "cab-system" "status:proposed->rejected"
            (by_agents "Rejected by: " rejections))) { status = rejected }
      else if any_of (is_human_approval iso) counted
      then record (log s (
          note_of (last_decision counted) "cab-system" "status:proposed->approved"
            (by_agents "Approved by: " counted))) { status = approved }
      else s

  unfoldable pub settle : String → Core → List Vote → State → State
  unfolding settle_standard settle_auto_normal settle_cab
  settle now core votes s =
      settle_cab votes (settle_auto_normal now core votes (settle_standard now core s))

  -- The record at the end: `core["id"]`, `ChangeType(...)` and `Risk(...)` may raise.
  unfoldable pub finish : String → Core → State → Result Change
  finish now core s =
      let change_type = change_type_of core in
      let risk = get_or core.risk "medium" in
      elim core.id [
        | none ↦ err (key_error "id")
        | some id ↦
            if not (is_change_type change_type)
            then err (value_error change_type)
            else if not (is_risk risk)
            then err (value_error risk)
            else ok (record {
              id = id;
              title = s.title;
              change_type = change_type;
              status = s.status;
              risk = risk;
              rollback_plan = core.rollback_plan;
              test_plan = core.test_plan;
              managed_by = core.managed_by;
              created_by = core.created_by;
              implementer = core.implementer;
              cab_required = get_or core.cab_required (not (change_type == "standard"));
              created_at = or_else core.created_at now;
              related_problem_id = s.related_problem_id;
              gtd_item_ids = s.gtd_ids;
              timeline = s.timeline;
              tags = s.tags;
              prepared_pr = s.prepared_pr;
              prepared_by = s.prepared_by;
              validation = s.validation;
              scheduled_window = s.scheduled_window;
            })
      ]

  unfoldable pub fold_change : String → Core → List Event → List Vote → Result Change
  unfolding settle finish
  fold_change now core events votes =
      finish now core (settle now core votes (replay iso core votes events))
