-- ===== src/Itil/Incident/Status.antt =====
-- src/skcoord/itil.py: the statuses through which `_fold_incident` takes an incident.
use skcoord.Prelude.{
  String, ◌≡◌, refl, sym, subst, Bool, true, false, Option, none, some, List, [], ◌∷◌, foldl,
  append_one, arith,
}
use skcoord.Itil.Event.{Event}
use skcoord.Itil.Incident.Model.{
  Status, detected, acknowledged, investigating, escalated, resolved, closed, transitions, Core,
}
use skcoord.Itil.Incident.Fold.{
  Kind, State, target, go, set_status, reopen_from, apply, kind_of, step, start, replay,
}

-- The moves that one event may make, one by one: none, an edge of the lifecycle, or the reopening.
pub data Move : Status → Status → Type 0 where
  stay : {s : Status} → Move s s
  acknowledge : Move detected acknowledged
  investigate : Move acknowledged investigating
  escalate_detected : Move detected escalated
  escalate_acknowledged : Move acknowledged escalated
  escalate_investigating : Move investigating escalated
  deescalate : Move escalated investigating
  resolve_detected : Move detected resolved
  resolve_acknowledged : Move acknowledged resolved
  resolve_investigating : Move investigating resolved
  resolve_escalated : Move escalated resolved
  close : Move resolved closed
  reopened : Move resolved investigating

-- The table has no edge but these.
edge : (s t : Status) → transitions s t ≡ true → Move s t
edge detected acknowledged h = acknowledge
edge detected escalated h = escalate_detected
edge detected resolved h = resolve_detected
edge acknowledged investigating h = investigate
edge acknowledged escalated h = escalate_acknowledged
edge acknowledged resolved h = resolve_acknowledged
edge investigating escalated h = escalate_investigating
edge investigating resolved h = resolve_investigating
edge escalated investigating h = deescalate
edge escalated resolved h = resolve_escalated
edge resolved closed h = close
edge _ _ h = cc

pub target-transitions :
    (s : Status) (to : Option String) {t : Status} → target s to ≡ some t → transitions s t ≡ true
unfolding target
target-transitions s none h = cc
target-transitions s (some to) h = ground arith

go-status : (s : State) (e : Event) (t : Status) → (go s e t).status ≡ t
unfolding go
go-status s e acknowledged = refl
go-status s e _ = refl

-- The branches that say nothing of the status.
abbrev pub is_quiet : Kind → Bool
is_quiet Kind.status = false
is_quiet Kind.reopen = false
is_quiet _ = true

pub apply-status_quiet :
    (k : Kind) (s : State) (e : Event) → is_quiet k ≡ true → (apply k s e).status ≡ s.status
unfolding apply
apply-status_quiet Kind.created s e h = ground arith
apply-status_quiet Kind.status s e h = cc
apply-status_quiet Kind.reopen s e h = cc
apply-status_quiet _ s e h = ground arith

Move-eq : {s t : Status} → t ≡ s → Move s t
Move-eq {s} p = subst (Move s) (sym p) stay

set_status-Move :
    (s : State) (e : Event) (o : Option Status)
    → ((t : Status) → o ≡ some t → transitions s.status t ≡ true)
    → Move s.status (set_status s e o).status
set_status-Move s e none h = stay
set_status-Move s e (some t) h =
    subst (Move s.status) (sym (go-status _ e t)) (edge s.status t (h t refl))

reopen_from-Move :
    (from : Status) (s : State) (e : Event)
    → s.status ≡ from
    → Move s.status (reopen_from from s e).status
reopen_from-Move resolved s e p = subst (λ x. Move x investigating) (sym p) reopened
reopen_from-Move _ s e p = stay

apply-Move : (k : Kind) (s : State) (e : Event) → Move s.status (apply k s e).status
unfolding apply
apply-Move Kind.created s e = Move-eq (apply-status_quiet Kind.created s e refl)
apply-Move Kind.status s e =
    set_status-Move s e (target s.status e.to) (λ t. target-transitions s.status e.to)
apply-Move Kind.reopen s e = reopen_from-Move s.status s e refl
apply-Move Kind.assignment s e = Move-eq (apply-status_quiet Kind.assignment s e refl)
apply-Move _ s e = stay

-- Whatever the event, the status stays or takes an edge.
pub step-Move : (s : State) (e : Event) → Move s.status (step s e).status
unfolding step
step-Move s e = apply-Move (kind_of e.kind) s e

foldl-step :
    (s : State) (events : List Event) (e : Event)
    → foldl step s (append_one events e) ≡ step (foldl step s events) e
foldl-step s [] e = refl
foldl-step s (x ∷ events) e = foldl-step (step s x) events e

Move-closed : {t : Status} → Move closed t → t ≡ closed
Move-closed m = inversion m refl
  where
    inversion : {s t : Status} → Move s t → s ≡ closed → t ≡ closed
    inversion stay p = p
    inversion close p = refl
    inversion _ p = cc

-- A closed incident stays closed, whatever events follow.
pub closed_is_final :
    (s : State) (events : List Event) → s.status ≡ closed → (foldl step s events).status ≡ closed
closed_is_final s [] p = p
closed_is_final s (e ∷ events) p =
    closed_is_final (step s e) events
      (Move-closed (subst (λ x. Move x (step s e).status) p (step-Move s e)))

-- However the log has gone, its next event leaves a folded incident's status as it is or takes it along
-- one edge of the lifecycle, as they are listed above, or from resolved back to investigating.
pub incident_status-Move :
    (core : Core) (events : List Event) (e : Event)
    → Move (replay core events).status (replay core (append_one events e)).status
unfolding replay
incident_status-Move core events e =
    subst (λ s. Move (foldl step (start core) events).status s.status)
      (sym (foldl-step (start core) events e)) (step-Move (foldl step (start core) events) e)
