-- ===== src/Itil/Manager/Update.antt =====
-- src/skcoord/itil.py: `update_change`, on the record that it loads. The events are as `_read_events`
-- merges them, and what the call appends is merged last. What it announces and the tasks that it emits
-- are lists; `gtd` is the id that `_gtd_emit` returns, none where it writes nothing.
use skcoord.Prelude.{
  ℕ, String, Bool, true, false, ◌&&◌, Option, none, some, get_or, List, [], ◌∷◌, ◌==◌, append_one,
  concat, is_set, truthy, if◌then◌else◌, Result, Error, ok, err, value_error,
}
use skcoord.Itil.Event.{Event, bare}
use skcoord.Itil.Cab.{IsoTime, Vote}
use skcoord.Itil.Change.Model.{Status, approved, deployed, Core, Change}
use skcoord.Itil.Change.Settle.{fold_change}

-- What `_append_event` puts on a line by itself: the time, the host and the line's number.
pub record Stamp : Type 0 where
  pub ts : String
  pub node : String
  pub seq : ℕ

-- A line of the log.
abbrev pub line : Stamp → String → String → Event
line stamp agent kind = record (bare kind) {
  ts = stamp.ts;
  node = stamp.node;
  seq = stamp.seq;
  writer = agent;
}

pub data Announcement : Type 0 where
  change_approved : (id title : String) (implementer : Option String) → Announcement
  change_deployed : (id title : String) → Announcement

pub record Request : Type 0 where
  pub id : String
  pub agent : String
  pub new_status : Option String
  pub note : String
  pub first : Stamp
  pub second : Stamp
  pub gtd : Option String

-- What a call leaves: the log, what was announced, the titles of the tasks that were emitted, and the
-- change, None where the fold raised, or the exception.
pub record Updated : Type 0 where
  pub events : List Event
  pub announced : List Announcement
  pub tasks : List String
  pub change : Result (Option Change)

-- _fold_record of a record that is there: a fold that raises is logged, and the answer is None.
abbrev pub folded : Result Change → Option Change
folded (err x) = none
folded (ok c) = some c

-- folded_now.status, where the answer is None
abbrev pub no_status : Error
no_status = Error.attribute_error "'NoneType' object has no attribute 'status'"

abbrev pub is_approved : Status → Bool
is_approved approved = true
is_approved _ = false

abbrev pub is_deployed : Status → Bool
is_deployed deployed = true
is_deployed _ = false

abbrev pub has_no_items : List String → Bool
has_no_items [] = true
has_no_items (x ∷ xs) = false

abbrev pub implement_task : Request → Core → String
implement_task q core = concat ("[ITIL:" ∷ q.id ∷ "] Implement: " ∷ core.title ∷ [])

-- The events with the link to the emitted task.
abbrev pub linked : Request → List Event → List Event
linked q events =
    if is_set q.gtd
    then append_one events (record (line q.second q.agent "gtd_link") { id = get_or q.gtd "" })
    else events

module _ (iso : String → IsoTime) (now : String) (core : Core) (votes : List Vote) where
  abbrev pub left : List Event → List Announcement → List String → Updated
  left events announced tasks = record {
    events = events;
    announced = announced;
    tasks = tasks;
    change = ok (folded (fold_change iso now core events votes));
  }

  -- Behind the status event, on the change as it folds now.
  unfoldable pub effects : Request → String → List Event → Change → Updated
  effects q new_status events c =
      if (new_status == "approved" && is_approved c.status)
      then if (is_set core.implementer && has_no_items c.gtd_item_ids)
        then left (linked q events) (change_approved q.id core.title core.implementer ∷ [])
            (implement_task q core ∷ [])
        else left events (change_approved q.id core.title core.implementer ∷ []) []
      else if (new_status == "deployed" && is_deployed c.status)
      then left events (change_deployed q.id core.title ∷ []) []
      else left events [] []

  abbrev pub status_line : Request → String → Event
  status_line q new_status = record (line q.first q.agent "status") {
    to = some new_status;
    note = q.note;
  }

  unfoldable pub with_status : Request → String → List Event → Updated
  unfolding effects
  with_status q new_status events =
      elim (fold_change iso now core (append_one events (status_line q new_status)) votes) [
        | err x ↦ record {
          events = append_one events (status_line q new_status);
          announced = [];
          tasks = [];
          change = err no_status;
        }
        | ok c ↦ effects q new_status (append_one events (status_line q new_status)) c
      ]

  unfoldable pub without_status : Request → List Event → Updated
  without_status q events =
      if truthy q.note
      then left (append_one events (record (line q.first q.agent "note") { note = q.note })) [] []
      else left events [] []

  unfoldable pub update_known : Request → Option String → List Event → Updated
  unfolding with_status without_status
  update_known q none events = without_status q events
  update_known q (some new_status) events =
      if truthy new_status then with_status q new_status events else without_status q events

-- A record that is not there raises.
unfoldable pub update_change :
    (String → IsoTime) → String → Option Core → List Vote → Request → List Event → Updated
unfolding update_known
update_change iso now none votes q events = record {
  events = events;
  announced = [];
  tasks = [];
  change = err (value_error "Change not found");
}
update_change iso now (some core) votes q events =
    update_known iso now core votes q q.new_status events
