-- ===== src/Itil/Change/Trace.antt =====
-- src/skcoord/itil.py: the timeline of a change. A refused event leaves one conflicted entry and
-- nothing else.
use mathlib.Core.List.{foldl-append}
use skcoord.Prelude.{
  String, ◌≡◌, refl, ap, ◌∙◌, Bool, true, false, not, Option, none, some, List, [], ◌∷◌, ◌++◌,
  is_some, arith, if◌then◌else◌,
}
use skcoord.Itil.Event.{Event, Entry}
use skcoord.Itil.Trail.{
  Extends, CleanlyExtends, quiet, logged, CleanlyExtends-Extends, cleanly_twice, foldl-Extends,
}
use skcoord.Itil.Cab.{IsoTime, Vote}
use skcoord.Itil.Change.Model.{Status, proposed, approved, scheduled, Core}
use skcoord.Itil.Change.Fold.{
  Kind, kind_of, State, log, gate, accepted, refuse, set_status, review_on_pass, schedule_from,
  leave_schedule, apply, step, start, replay,
}

abbrev pub is_approved : Status → Bool
is_approved approved = true
is_approved _ = false

abbrev pub is_scheduled : Status → Bool
is_scheduled scheduled = true
is_scheduled _ = false

-- Whether the fold refuses an event of this kind, given the gate.
abbrev pub refused : Kind → Status → State → Event → Bool
refused Kind.status from s e = not (is_some (accepted from e))
refused Kind.schedule from s e = not (is_approved from)
refused Kind.unschedule from s e = not (is_scheduled s.status)
refused Kind.window_missed from s e = not (is_scheduled s.status)
refused _ from s e = false

abbrev pub Outcome : Bool → State → State → Type 0
Outcome true s t = (x : Entry) × (x.conflicted ≡ true) × (t ≡ log s x)
Outcome false s t = CleanlyExtends s.timeline t.timeline

refuse-conflicted : (from : Status) (e : Event) → (refuse from e).conflicted ≡ true
unfolding refuse
refuse-conflicted from e = ground arith

set_status-Outcome :
    (from : Status) (s : State) (e : Event) (o : Option Status)
    → Outcome (not (is_some o)) s (set_status from s e o)
set_status-Outcome from s e none = (refuse from e, refuse-conflicted from e, refl)
set_status-Outcome from s e (some t) = logged s.timeline _ _ refl refl

schedule_from-Outcome :
    (from : Status) (s : State) (e : Event)
    → Outcome (not (is_approved from)) s (schedule_from from s e)
schedule_from-Outcome approved s e = logged s.timeline _ _ refl refl
schedule_from-Outcome _ s e = (_, refl, refl)

leave_schedule-Outcome :
    (name default_note : String) (from : Status) (s : State) (e : Event)
    → Outcome (not (is_scheduled from)) s (leave_schedule name default_note from s e)
leave_schedule-Outcome name default_note scheduled s e = logged s.timeline _ _ refl refl
leave_schedule-Outcome name default_note _ s e = (_, refl, refl)

review_on_pass-Outcome :
    (passed : Bool) (from : Status) (l : List Entry) (s : State) (e : Event)
    → CleanlyExtends l s.timeline
    → CleanlyExtends l (review_on_pass passed from s e).timeline
review_on_pass-Outcome true proposed l s e grown = cleanly_twice l s.timeline _ _ refl grown refl
review_on_pass-Outcome true _ l s e grown = grown
review_on_pass-Outcome false from l s e grown = grown

if-Outcome :
    (b : Bool) (l : List Entry) (t u : State)
    → CleanlyExtends l t.timeline
    → CleanlyExtends l u.timeline
    → CleanlyExtends l (if b then t else u).timeline
if-Outcome true l t u p q = p
if-Outcome false l t u p q = q

module _ (iso : String → IsoTime) (core : Core) (votes : List Vote) where
  apply-Outcome :
      (k : Kind) (s : State) (e : Event)
      → Outcome (refused k (gate iso core votes s) s e) s (apply iso core votes k s e)
  unfolding apply
  apply-Outcome Kind.created s e =
      if-Outcome s.seen_created s.timeline s _ (quiet s.timeline) (logged s.timeline _ _ refl refl)
  apply-Outcome Kind.status s e =
      set_status-Outcome (gate iso core votes s) s e (accepted (gate iso core votes s) e)
  apply-Outcome Kind.schedule s e = schedule_from-Outcome (gate iso core votes s) s e
  apply-Outcome Kind.unschedule s e = leave_schedule-Outcome "unschedule" "unscheduled" s.status s e
  apply-Outcome Kind.window_missed s e =
      leave_schedule-Outcome "window_missed" "window missed" s.status s e
  apply-Outcome Kind.validation s e =
      review_on_pass-Outcome e.passed s.status s.timeline _ e (logged s.timeline _ _ refl refl)
  apply-Outcome Kind.title s e = logged s.timeline _ _ refl refl
  apply-Outcome Kind.note s e = logged s.timeline _ _ refl refl
  apply-Outcome Kind.auto_approved s e = logged s.timeline _ _ refl refl
  apply-Outcome Kind.pr_link s e = logged s.timeline _ _ refl refl
  apply-Outcome _ s e = quiet s.timeline

  -- A refused event (a transition that the table lacks or a guard stops, a schedule while not
  -- approved, an unschedule or a missed window while not scheduled) changes nothing but the timeline,
  -- by one conflicted entry. Any other event appends only entries that are not conflicted.
  pub change_event-Outcome :
      (s : State) (e : Event)
      → Outcome (refused (kind_of e.kind) (gate iso core votes s) s e) s (step iso core votes s e)
  unfolding step
  change_event-Outcome s e = apply-Outcome (kind_of e.kind) s e

Outcome-Extends : (b : Bool) (s t : State) → Outcome b s t → Extends s.timeline t.timeline
Outcome-Extends true s t (x, _, p) = (x ∷ [], λ i. (p i).timeline)
Outcome-Extends false s t grown = CleanlyExtends-Extends s.timeline t.timeline grown

module _ (iso : String → IsoTime) (core : Core) (votes : List Vote) where
  step-Extends : (s : State) (e : Event) → Extends s.timeline (step iso core votes s e).timeline
  step-Extends s e =
      Outcome-Extends (refused (kind_of e.kind) (gate iso core votes s) s e) s _
        (change_event-Outcome iso core votes s e)

  -- The timeline of the loop is append-only: with more events behind those that were read, the old
  -- timeline is a prefix of the new one.
  pub change_timeline-append :
      (old new : List Event)
      → (added : List Entry) × ((replay iso core votes (old ++ new)).timeline
          ≡ (replay iso core votes old).timeline ++ added)
  unfolding replay
  change_timeline-append old new =
      let (added, p) =
        foldl-Extends (λ (s : State). s.timeline) (step iso core votes) step-Extends
          (replay iso core votes old) new in
      (
        added,
        ap (λ (s : State). s.timeline) (foldl-append (step iso core votes) (start core) old new)
            ∙ p,
      )
