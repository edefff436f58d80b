-- ===== src/Itil/Incident/Times.antt =====
-- src/skcoord/itil.py: the timestamps of a folded incident agree with its status.
use skcoord.Prelude.{
  String, ◌≡◌, refl, Bool, true, false, Option, none, some, List, [], ◌∷◌, foldl, arith, is_some,
}
use skcoord.Itil.Event.{Event}
use skcoord.Itil.Incident.Model.{Status, resolved, closed, transitions, Core}
use skcoord.Itil.Incident.Fold.{
  Kind, State, first_stamp, target, go, set_status, reopen_from, apply, kind_of, step, start,
  replay,
}
use skcoord.Itil.Incident.Status.{target-transitions}

abbrev pub is_resolved : Status → Bool
is_resolved resolved = true
is_resolved closed = true
is_resolved _ = false

abbrev pub is_closed : Status → Bool
is_closed closed = true
is_closed _ = false

-- `resolved_at` is there exactly while the incident is resolved or closed, `closed_at` exactly while
-- it is closed.
pub record TimesAgree (s : State) : Type 0 where
  pub resolved : is_some s.resolved_at ≡ is_resolved s.status
  pub closed : is_some s.closed_at ≡ is_closed s.status

first_stamp-some : (old : Option String) (ts : String) → is_some (first_stamp old ts) ≡ true
first_stamp-some old ts = ground arith

set_status-TimesAgree :
    (s : State) (e : Event) (o : Option Status)
    → ((t : Status) → o ≡ some t → transitions s.status t ≡ true)
    → TimesAgree s
    → TimesAgree (set_status s e o)
unfolding go
set_status-TimesAgree s e none h ok = record { resolved = ok.resolved; closed = ok.closed }
set_status-TimesAgree s e (some t) h ok =
    let edge = h t refl in
    ground (arith, first_stamp-some s.resolved_at e.ts, first_stamp-some s.closed_at e.ts)

reopen_from-TimesAgree :
    (from : Status) (s : State) (e : Event)
    → s.status ≡ from
    → TimesAgree s
    → TimesAgree (reopen_from from s e)
reopen_from-TimesAgree from s e p ok = ground arith

apply-TimesAgree : (k : Kind) (s : State) (e : Event) → TimesAgree s → TimesAgree (apply k s e)
unfolding apply
apply-TimesAgree Kind.status s e ok =
    set_status-TimesAgree s e (target s.status e.to) (λ t. target-transitions s.status e.to) ok
apply-TimesAgree Kind.reopen s e ok = reopen_from-TimesAgree s.status s e refl ok
apply-TimesAgree _ s e ok = ground arith

step-TimesAgree : (s : State) (e : Event) → TimesAgree s → TimesAgree (step s e)
unfolding step
step-TimesAgree s e ok = apply-TimesAgree (kind_of e.kind) s e ok

foldl-TimesAgree :
    (s : State) (events : List Event) → TimesAgree s → TimesAgree (foldl step s events)
foldl-TimesAgree s [] ok = ok
foldl-TimesAgree s (e ∷ events) ok = foldl-TimesAgree (step s e) events (step-TimesAgree s e ok)

-- Whatever the events, at the end of the loop `resolved_at` is there exactly if the incident is
-- resolved or closed, and `closed_at` exactly if it is closed.
pub replay-TimesAgree : (core : Core) (events : List Event) → TimesAgree (replay core events)
unfolding replay start
replay-TimesAgree core events =
    foldl-TimesAgree (start core) events (record { resolved = refl; closed = refl })
