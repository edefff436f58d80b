-- ===== src/Itil/Change/Edges.antt =====
-- src/skcoord/itil.py: the edges of the change lifecycle that ask for more than the table: the notes
-- of the post-implementation review and of a rollback, and the deploy window.
use skcoord.Prelude.{
  String, ◌≡◌, ◌≢◌, refl, ◌∙◌, ap, subst, true, false, Option, none, some, get_or, List, arith,
  eq_iff, is_blank,
}
use skcoord.Itil.Event.{Event}
use skcoord.Itil.Cab.{IsoTime, Vote}
use skcoord.Itil.Change.Model.{Status, deployed, verified, failed, closed, value, transitions, Core}
use skcoord.Itil.Change.Gate.{cab_resolved_status}
use skcoord.Itil.Change.Fold.{
  Kind, kind_of, State, gate, accepted, note_missing, set_status, apply, step,
}
use skcoord.Itil.Change.Moves.{accepted_cases}

-- A guarded edge into `verified` or, from `failed`, into `closed` has a note.
verified_noted :
    (gate : Status) (e : Event)
    → transitions gate verified ≡ true
    → get_or e.to "" ≡ value verified
    → note_missing gate e ≡ false
    → (gate ≡ deployed) × (is_blank e.note ≡ false)
verified_noted gate e edge named kept =
    (ground arith, ground (arith, eq_iff (get_or e.to "") "verified"))

closed_noted :
    (e : Event)
    → get_or e.to "" ≡ value closed
    → note_missing failed e ≡ false
    → is_blank e.note ≡ false
closed_noted e named kept = ground (arith, eq_iff (get_or e.to "") "closed")

module _ (iso : String → IsoTime) (core : Core) (votes : List Vote) where
  -- A gate that no derivation made is the status itself.
  gate-deployed : (s : State) → gate iso core votes s ≡ deployed → s.status ≡ deployed
  unfolding cab_resolved_status
  gate-deployed s h = ground arith

  gate-failed : (s : State) → s.status ≡ failed → gate iso core votes s ≡ failed
  unfolding cab_resolved_status
  gate-failed s h = ground arith

  set_status-noted :
      (s : State) (e : Event) (o : Option Status)
      → accepted (gate iso core votes s) e ≡ o
      → s.status ≢ verified
      → (set_status (gate iso core votes s) s e o).status ≡ verified
      → (s.status ≡ deployed) × (is_blank e.note ≡ false)
  set_status-noted s e none q fresh h = absurd (fresh h)
  set_status-noted s e (some t) q fresh h =
      let (edge, named, _, kept) = accepted_cases (gate iso core votes s) e (q ∙ ap some h) in
      let (from, noted) = verified_noted (gate iso core votes s) e edge named kept in
      (gate-deployed s from, noted)

  apply-noted :
      (k : Kind) (s : State) (e : Event)
      → s.status ≢ verified
      → (apply iso core votes k s e).status ≡ verified
      → (s.status ≡ deployed) × (is_blank e.note ≡ false)
  unfolding apply
  apply-noted Kind.status s e fresh h = set_status-noted s e _ refl fresh h
  apply-noted Kind.created s e fresh h = absurd (ground arith)
  apply-noted _ s e fresh h = absurd (ground arith)

  -- A change becomes verified only from deployed, by an event whose note is not blank: the
  -- post-implementation review.
  pub verified_needs_note :
      (s : State) (e : Event)
      → s.status ≢ verified
      → (step iso core votes s e).status ≡ verified
      → (s.status ≡ deployed) × (is_blank e.note ≡ false)
  unfolding step
  verified_needs_note s e = apply-noted (kind_of e.kind) s e

  set_status-rollback :
      (s : State) (e : Event) (o : Option Status)
      → accepted failed e ≡ o
      → s.status ≡ failed
      → (set_status failed s e o).status ≡ closed
      → is_blank e.note ≡ false
  set_status-rollback s e none q from h = ground arith
  set_status-rollback s e (some t) q from h =
      let (_, named, _, kept) = accepted_cases failed e (q ∙ ap some h) in closed_noted e named kept

  apply-rollback :
      (k : Kind) (s : State) (e : Event)
      → s.status ≡ failed
      → (apply iso core votes k s e).status ≡ closed
      → is_blank e.note ≡ false
  unfolding apply
  apply-rollback Kind.status s e from h =
      set_status-rollback s e _ refl from
        (subst (λ g. (set_status g s e (accepted g e)).status ≡ closed) (gate-failed s from) h)
  apply-rollback Kind.created s e from h = ground arith
  apply-rollback _ s e from h = ground arith

  -- A failed change is closed only by an event whose note is not blank: the rollback note.
  pub rollback_needs_note :
      (s : State) (e : Event)
      → s.status ≡ failed
      → (step iso core votes s e).status ≡ closed
      → is_blank e.note ≡ false
  unfolding step
  rollback_needs_note s e = apply-rollback (kind_of e.kind) s e
