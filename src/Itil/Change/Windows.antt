-- ===== src/Itil/Change/Windows.antt =====
-- src/skcoord/itil.py: the deploy window of a change, and the events that set and clear it.
use skcoord.Prelude.{
  String, ◌≡◌, refl, sym, subst, ◌⊎◌, inl, inr, true, Option, none, some, List, arith, is_some,
}
use skcoord.Itil.Event.{Event}
use skcoord.Itil.Cab.{IsoTime, Vote}
use skcoord.Itil.Change.Model.{Status, approved, scheduled, parse_status, Core}
use skcoord.Itil.Change.Gate.{cab_resolved_status}
use skcoord.Itil.Change.Fold.{
  Kind, kind_of, State, gate, set_status, schedule_from, leave_schedule, apply, step,
}

-- What one event may do to the window.
abbrev pub Kept : State → State → Type 0
Kept s t = t.scheduled_window ≡ s.scheduled_window

abbrev pub Scheduled : Status → State → Type 0
Scheduled gate t = (gate ≡ approved) × (t.status ≡ scheduled) × (is_some t.scheduled_window ≡ true)

abbrev pub Unscheduled : State → State → Type 0
Unscheduled s t = (s.status ≡ scheduled) × (t.status ≡ approved) × (t.scheduled_window ≡ none)

abbrev pub WindowMove : Kind → Status → State → State → Type 0
WindowMove Kind.schedule gate s t = Scheduled gate t ⊎ (t.status ≡ s.status) × Kept s t
WindowMove Kind.unschedule gate s t = Unscheduled s t ⊎ (t.status ≡ s.status) × Kept s t
WindowMove Kind.window_missed gate s t = Unscheduled s t ⊎ (t.status ≡ s.status) × Kept s t
WindowMove _ gate s t = Kept s t

schedule_from-move :
    (from : Status) (s : State) (e : Event)
    → Scheduled from (schedule_from from s e)
      ⊎ ((schedule_from from s e).status ≡ s.status) × Kept s (schedule_from from s e)
schedule_from-move approved s e = inl (refl, refl, refl)
schedule_from-move _ s e = inr (refl, refl)

leave_schedule-move :
    (name default_note : String) (from : Status) (s : State) (e : Event)
    → s.status ≡ from
    → Unscheduled s (leave_schedule name default_note from s e)
      ⊎ ((leave_schedule name default_note from s e).status ≡ s.status)
        × Kept s (leave_schedule name default_note from s e)
leave_schedule-move name default_note scheduled s e p = inl (p, refl, refl)
leave_schedule-move name default_note _ s e p = inr (refl, refl)

set_status-window :
    (gate : Status) (s : State) (e : Event) (o : Option Status) → Kept s (set_status gate s e o)
set_status-window gate s e none = refl
set_status-window gate s e (some t) = refl

abbrev pub Bypass : State → Event → State → Type 0
Bypass s e t =
    (s.status ≡ approved → e.to ≡ some "scheduled" → (t.status ≡ scheduled) × Kept s t)
    × (s.status ≡ scheduled → e.to ≡ some "approved" → (t.status ≡ approved) × Kept s t)

module _ (iso : String → IsoTime) (core : Core) (votes : List Vote) where
  apply-window :
      (k : Kind) (s : State) (e : Event)
      → WindowMove k (gate iso core votes s) s (apply iso core votes k s e)
  unfolding apply
  apply-window Kind.schedule s e = schedule_from-move (gate iso core votes s) s e
  apply-window Kind.unschedule s e =
      leave_schedule-move "unschedule" "unscheduled" s.status s e refl
  apply-window Kind.window_missed s e =
      leave_schedule-move "window_missed" "window missed" s.status s e refl
  apply-window Kind.status s e = set_status-window (gate iso core votes s) s e _
  apply-window Kind.created s e = ground arith
  apply-window Kind.validation s e = ground arith
  apply-window _ s e = refl

  -- The window changes in two ways only: a schedule event sets it where the gate is approved and makes
  -- the change scheduled, and unschedule and window_missed clear it where the change is scheduled and
  -- make it approved. Refused, these three change neither window nor status, and no other event
  -- changes the window.
  pub step-window :
      (s : State) (e : Event)
      → WindowMove (kind_of e.kind) (gate iso core votes s) s (step iso core votes s e)
  unfolding step
  step-window s e = apply-window (kind_of e.kind) s e

  from_approved :
      (s : State) (e : Event)
      → s.status ≡ approved
      → e.to ≡ some "scheduled"
      → ((apply iso core votes Kind.status s e).status ≡ scheduled)
        × Kept s (apply iso core votes Kind.status s e)
  unfolding apply cab_resolved_status parse_status
  from_approved s e p q = (ground arith, set_status-window (gate iso core votes s) s e _)

  from_scheduled :
      (s : State) (e : Event)
      → s.status ≡ scheduled
      → e.to ≡ some "approved"
      → ((apply iso core votes Kind.status s e).status ≡ approved)
        × Kept s (apply iso core votes Kind.status s e)
  unfolding apply cab_resolved_status parse_status
  from_scheduled s e p q = (ground arith, set_status-window (gate iso core votes s) s e _)

  -- A plain status event takes the same two edges past the dedicated events: from approved it makes
  -- the change scheduled with whatever window it had, none included, and from scheduled it makes it
  -- approved and leaves the window standing.
  pub status_bypasses_window :
      (s : State) (e : Event) → kind_of e.kind ≡ Kind.status → Bypass s e (step iso core votes s e)
  unfolding step
  status_bypasses_window s e is_status =
      subst (λ k. Bypass s e (apply iso core votes k s e)) (sym is_status)
        (from_approved s e, from_scheduled s e)
