-- ===== src/Itil/Problem/Lifecycle.antt =====
-- src/skcoord/itil.py: the statuses and the timeline of a folded problem.
use mathlib.Core.List.{foldl-append}
use skcoord.Prelude.{
  ℕ, ◌≤◌, String, ◌≡◌, refl, sym, subst, Bool, true, false, not, Option, none, some, List, [], ◌∷◌,
  ◌++◌, foldl, arith, is_some, if◌then◌else◌,
}
use skcoord.Itil.Event.{Event, Entry, conflict}
use skcoord.Itil.Trail.{CleanlyExtends, quiet, logged}
use skcoord.Itil.Problem.Model.{Status, identified, analyzing, known_error, resolved, Core}
use skcoord.Itil.Problem.Fold.{
  Kind, kind_of, State, target, log, status_action, set_status, apply, step, start, replay,
}

-- How far a problem has come.
abbrev pub rank : Status → ℕ
rank identified = 0
rank analyzing = 1
rank known_error = 2
rank resolved = 3

-- Whether the fold refuses the event.
abbrev pub refused : Kind → State → Event → Bool
refused Kind.status s e = not (is_some (target s.status e.to))
refused _ s e = false

-- A refused event changes the timeline alone, by one conflicted entry. Any other appends entries that
-- are not conflicted, and the status keeps its rank or gains.
abbrev pub Outcome : Bool → State → State → Type 0
Outcome true s t = (x : Entry) × (x.conflicted ≡ true) × (t ≡ log s x)
Outcome false s t = CleanlyExtends s.timeline t.timeline × (rank s.status ≤ rank t.status)

target-rank :
    (s : Status) (to : Option String) {t : Status} → target s to ≡ some t → rank s ≤ rank t
unfolding target
target-rank s none h = cc
target-rank s (some to) h = ground arith

set_status-Outcome :
    (s : State) (e : Event) (o : Option Status)
    → ((t : Status) → o ≡ some t → rank s.status ≤ rank t)
    → Outcome (not (is_some o)) s (set_status s e o)
set_status-Outcome s e none h = (conflict e (status_action s e.to), refl, refl)
set_status-Outcome s e (some t) h = (logged s.timeline _ _ refl refl, h t refl)

if-Outcome :
    (b : Bool) (s t u : State)
    → Outcome false s t
    → Outcome false s u
    → Outcome false s (if b then t else u)
if-Outcome true s t u p q = p
if-Outcome false s t u p q = q

apply-Outcome : (k : Kind) (s : State) (e : Event) → Outcome (refused k s e) s (apply k s e)
unfolding apply
apply-Outcome Kind.created s e =
    if-Outcome s.seen_created s s _ (quiet s.timeline, omega arith)
      (logged s.timeline _ _ refl refl, omega arith)
apply-Outcome Kind.status s e =
    set_status-Outcome s e (target s.status e.to) (λ t. target-rank s.status e.to)
apply-Outcome Kind.title s e = (logged s.timeline _ _ refl refl, omega arith)
apply-Outcome Kind.note s e = (logged s.timeline _ _ refl refl, omega arith)
apply-Outcome _ s e = (quiet s.timeline, omega arith)

-- An event whose transition the table lacks changes nothing but the timeline, by one conflicted
-- entry. Any other event appends only entries that are not conflicted and takes the problem no step
-- back.
pub problem_event-Outcome :
    (s : State) (e : Event) → Outcome (refused (kind_of e.kind) s e) s (step s e)
unfolding step
problem_event-Outcome s e = apply-Outcome (kind_of e.kind) s e

Outcome-rank : (b : Bool) (s t : State) → Outcome b s t → rank s.status ≤ rank t.status
Outcome-rank true s t (x, _, p) =
    subst (λ (u : State). rank s.status ≤ rank u.status) (sym p) (omega arith)
Outcome-rank false s t (_, h) = h

foldl-rank : (s : State) (events : List Event) → rank s.status ≤ rank (foldl step s events).status
foldl-rank s [] = omega arith
foldl-rank s (e ∷ events) = omega (
  arith,
  foldl-rank (step s e) events,
  Outcome-rank (refused (kind_of e.kind) s e) s (step s e) (problem_event-Outcome s e),
)

-- A problem never goes back: with more events behind those that were read, its status stands at the
-- same stage or a later one.
pub problem_status-rank :
    (core : Core) (old new : List Event)
    → rank (replay core old).status ≤ rank (replay core (old ++ new)).status
unfolding replay
problem_status-rank core old new =
    rw (foldl-append step (start core) old new) (foldl-rank (foldl step (start core) old) new)
