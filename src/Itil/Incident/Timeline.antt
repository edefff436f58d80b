-- ===== src/Itil/Incident/Timeline.antt =====
-- src/skcoord/itil.py: the timeline is an append-only audit trail, and a refused event leaves one
-- conflicted entry and nothing else.
use mathlib.Core.List.{foldl-append}
use skcoord.Prelude.{
  ◌≡◌, refl, ap, ◌∙◌, Bool, true, false, not, Option, none, some, List, [], ◌∷◌, ◌++◌, truthy,
  get_or, is_some, if◌then◌else◌,
}
use skcoord.Itil.Event.{Event, Entry, entry, conflict}
use skcoord.Itil.Trail.{
  Extends, CleanlyExtends, quiet, logged, CleanlyExtends-Extends, foldl-Extends,
}
use skcoord.Itil.Incident.Model.{Status, acknowledged, resolved, Core}
use skcoord.Itil.Incident.Fold.{
  Kind, State, target, go, log, status_action, set_status, reopen_from, apply, kind_of, step, start,
  replay,
}

-- Whether the fold refuses the event: a transition that the table lacks, or a reopen of an incident
-- that is not resolved.
abbrev pub reopen_refused : Status → Bool
reopen_refused resolved = false
reopen_refused _ = true

abbrev pub refused : Kind → State → Event → Bool
refused Kind.status s e = not (is_some (target s.status e.to))
refused Kind.reopen s e = reopen_refused s.status
refused _ s e = false

abbrev pub Outcome : Bool → State → State → Type 0
Outcome true s t = (x : Entry) × (x.conflicted ≡ true) × (t ≡ log s x)
Outcome false s t = CleanlyExtends s.timeline t.timeline

go-timeline : (s : State) (e : Event) (t : Status) → (go s e t).timeline ≡ s.timeline
unfolding go
go-timeline s e acknowledged = refl
go-timeline s e _ = refl

set_status-Outcome :
    (s : State) (e : Event) (o : Option Status) → Outcome (not (is_some o)) s (set_status s e o)
set_status-Outcome s e none = (conflict e (status_action s e.to), refl, refl)
set_status-Outcome s e (some t) =
    logged s.timeline _ (entry e (status_action s e.to) e.note) refl (go-timeline _ e t)

reopen_from-Outcome :
    (from : Status) (s : State) (e : Event) → Outcome (reopen_refused from) s (reopen_from from s e)
reopen_from-Outcome resolved s e = logged s.timeline _ _ refl refl
reopen_from-Outcome _ s e = (_, refl, refl)

if-Outcome :
    (b : Bool) (s t u : State)
    → Outcome false s t
    → Outcome false s u
    → Outcome false s (if b then t else u)
if-Outcome true s t u p q = p
if-Outcome false s t u p q = q

apply-Outcome : (k : Kind) (s : State) (e : Event) → Outcome (refused k s e) s (apply k s e)
unfolding apply
apply-Outcome Kind.created s e =
    if-Outcome s.seen_created s s _ (quiet s.timeline) (logged s.timeline _ _ refl refl)
apply-Outcome Kind.status s e = set_status-Outcome s e (target s.status e.to)
apply-Outcome Kind.reopen s e = reopen_from-Outcome s.status s e
apply-Outcome Kind.severity s e = logged s.timeline _ _ refl refl
apply-Outcome Kind.ack s e = logged s.timeline _ _ refl refl
apply-Outcome Kind.title s e = logged s.timeline _ _ refl refl
apply-Outcome Kind.assignment s e =
    if-Outcome (truthy (get_or e.to "")) s _ s (logged s.timeline _ _ refl refl) (quiet s.timeline)
apply-Outcome Kind.note s e = logged s.timeline _ _ refl refl
apply-Outcome _ s e = quiet s.timeline

-- An event that the fold refuses changes nothing but the timeline, by one conflicted entry. Any
-- other event appends only entries that are not conflicted.
pub incident_event-Outcome :
    (s : State) (e : Event) → Outcome (refused (kind_of e.kind) s e) s (step s e)
unfolding step
incident_event-Outcome s e = apply-Outcome (kind_of e.kind) s e

Outcome-Extends : (b : Bool) (s t : State) → Outcome b s t → Extends s.timeline t.timeline
Outcome-Extends true s t (x, _, p) = (x ∷ [], λ i. (p i).timeline)
Outcome-Extends false s t grown = CleanlyExtends-Extends s.timeline t.timeline grown

pub step-Extends : (s : State) (e : Event) → Extends s.timeline (step s e).timeline
step-Extends s e = Outcome-Extends (refused (kind_of e.kind) s e) s _ (incident_event-Outcome s e)

-- The timeline is append-only: with more events behind those that were read, the old timeline is a
-- prefix of the new one.
pub incident_timeline-append :
    (core : Core) (old new : List Event)
    → (added : List Entry) × ((replay core (old ++ new)).timeline
        ≡ (replay core old).timeline ++ added)
unfolding replay
incident_timeline-append core old new =
    let (added, p) =
      foldl-Extends (λ (s : State). s.timeline) step step-Extends (replay core old) new in
    (added, ap (λ (s : State). s.timeline) (foldl-append step (start core) old new) ∙ p)
