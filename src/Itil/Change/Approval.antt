-- ===== src/Itil/Change/Approval.antt =====
-- src/skcoord/itil.py: who can approve a change. The CAB bypass guard, the ban on self-approval and
-- the standing veto of `_fold_change`.
use mathlib.Core.List.{foldl-append}
use skcoord.Prelude.{
  ◌++◌, subst, sym, String, ◌≡◌, refl, Bool, true, false, Option, none, some, List, [], ◌∷◌, foldl,
  arith, ◌==◌, All, any_of,
}
use skcoord.Itil.Event.{Event}
use skcoord.Itil.Cab.{IsoTime, Vote, is_rejection}
use skcoord.Itil.Change.Model.{Status, rejected, closed, Core}
use skcoord.Itil.Change.Gate.{change_type_of, auto_normal, human_approved, cab_resolved_status}
use skcoord.Itil.Change.Fold.{Kind, kind_of, State, gate, apply, step, start, replay}
use skcoord.Itil.Change.Hold.{
  is_held, IsLive, NeedsVote, Unauthorised, Blocked, reads_gate, apply-held, apply-held_ungated,
  settle-held, foldl-Blocked, settle_standard-none,
}
use skcoord.Itil.Change.Settle.{settle_auto_normal, settle_cab, settle}

-- Dropping the drafter's votes approves nothing.
human_approved_drop :
    (iso : String → IsoTime) (core : Core) (votes : List Vote) (drafter : Option String)
    → human_approved iso core votes none ≡ false
    → human_approved iso core votes drafter ≡ false
unfolding human_approved
human_approved_drop iso core [] drafter h = refl
human_approved_drop iso core (v ∷ votes) drafter h =
    ground (arith, human_approved_drop iso core votes drafter)

All-Unauthorised :
    (iso : String → IsoTime) (core : Core) (votes : List Vote) (events : List Event)
    → human_approved iso core votes none ≡ false
    → All IsLive events
    → All (Unauthorised iso core votes) events
All-Unauthorised iso core votes [] h live = tt
All-Unauthorised iso core votes (e ∷ events) h (live, rest) = (
  (live, λ _. human_approved_drop iso core votes _ h),
  All-Unauthorised iso core votes events h rest,
)

-- A change that is no standard change and that the operator did not create is never approved, nor
-- scheduled, implemented, deployed, verified or failed, while no human approval qualifies: whatever
-- live events its log holds, it stays proposed or reviewing, or it is rejected or closed.
pub approval_takes_vote :
    (iso : String → IsoTime) (now : String) (core : Core) (votes : List Vote) (events : List Event)
    → NeedsVote core
    → human_approved iso core votes none ≡ false
    → All IsLive events
    → is_held (settle iso now core votes (replay iso core votes events)).status ≡ true
unfolding replay
approval_takes_vote iso now core votes events needs none_approved live =
    settle-held iso core votes needs now _ (
      foldl-Blocked iso core votes needs (start core) events
        (All-Unauthorised iso core votes events none_approved live)
        (record { held = refl; unapproved = none_approved }))

foldl-held_ungated :
    (iso : String → IsoTime) (core : Core) (votes : List Vote) (s : State) (events : List Event)
    → All (λ e. reads_gate (kind_of e.kind) ≡ false) events
    → is_held s.status ≡ true
    → is_held (foldl (step iso core votes) s events).status ≡ true
unfolding step
foldl-held_ungated iso core votes s [] u held = held
foldl-held_ungated iso core votes s (e ∷ events) (u, us) held =
    foldl-held_ungated iso core votes (step iso core votes s e) events us
      (apply-held_ungated iso core votes (kind_of e.kind) s e u held)

link-prepared_by :
    (iso : String → IsoTime) (core : Core) (votes : List Vote) (k : Kind) (s : State) (e : Event)
    → k ≡ Kind.pr_link
    → (apply iso core votes k s e).prepared_by ≡ some e.writer
unfolding apply
link-prepared_by iso core votes k s e p =
    subst (λ j. (apply iso core votes j s e).prepared_by ≡ some e.writer) (sym p) refl

-- No self-approval, for a change that is no standard change and that the operator did not create: if a
-- draft is attached before any status or schedule event, no one else attaches one later, and every
-- qualifying approval is the drafter's own, then the change is never approved, whatever live events
-- follow: it stays proposed or reviewing, or it is rejected or closed.
pub no_self_approval :
    (iso : String → IsoTime) (now : String) (core : Core) (votes : List Vote) (before : List Event)
    (link : Event) (after : List Event)
    → NeedsVote core
    → All (λ e. reads_gate (kind_of e.kind) ≡ false) before
    → kind_of link.kind ≡ Kind.pr_link
    → human_approved iso core votes (some link.writer) ≡ false
    → All (λ e. IsLive e × (kind_of e.kind ≡ Kind.pr_link → e.writer ≡ link.writer)) after
    → is_held (settle iso now core votes (replay iso core votes (before ++ link ∷ after))).status
      ≡ true
unfolding replay step start
no_self_approval iso now core votes before link after needs quiet is_link self rest =
    settle-held iso core votes needs now _ (
      rw (foldl-append (step iso core votes) (start core) before (link ∷ after))
        (foldl-Blocked iso core votes needs _ after (drafted after rest) linked))
  where
    drafted :
        (events : List Event)
        → All (λ e. IsLive e × (kind_of e.kind ≡ Kind.pr_link → e.writer ≡ link.writer)) events
        → All (Unauthorised iso core votes) events
    drafted [] h = tt
    drafted (e ∷ events) ((live, same), hs) = ((live, λ p. rw (same p) self), drafted events hs)

    ready : State
    ready = foldl (step iso core votes) (start core) before

    linked : Blocked iso core votes (step iso core votes ready link)
    linked = record {
      held =
          apply-held_ungated iso core votes (kind_of link.kind) ready link
            (subst (λ k. reads_gate k ≡ false) (sym is_link) refl)
            (foldl-held_ungated iso core votes (start core) before quiet refl);
      unapproved = rw (link-prepared_by iso core votes (kind_of link.kind) ready link is_link) self;
    }

-- A change that a vote has turned down and that can go nowhere but to its close.
abbrev pub is_turned_down : Status → Bool
is_turned_down rejected = true
is_turned_down closed = true
is_turned_down _ = false

module _ (iso : String → IsoTime) (core : Core) (votes : List Vote)
    (manual : (change_type_of core == "standard") ≡ false)
    (veto : any_of is_rejection votes ≡ true) where
  gate_vetoed : (s : State) → is_held s.status ≡ true → is_held (gate iso core votes s) ≡ true
  unfolding cab_resolved_status auto_normal
  gate_vetoed s held = ground arith

  foldl_vetoed :
      (s : State) (events : List Event)
      → All IsLive events
      → is_held s.status ≡ true
      → is_held (foldl (step iso core votes) s events).status ≡ true
  unfolding step
  foldl_vetoed s [] live held = held
  foldl_vetoed s (e ∷ events) (live, rest) held =
      foldl_vetoed (step iso core votes s e) events rest
        (apply-held iso core votes (kind_of e.kind) s e live held (gate_vetoed s held))

  settle_vetoed :
      (now : String) (s : State)
      → is_held s.status ≡ true
      → is_turned_down (settle iso now core votes s).status ≡ true
  unfolding settle settle_auto_normal auto_normal settle_cab
  settle_vetoed now s held = rw (settle_standard-none now core s manual) (ground arith)

  -- One rejecting vote, whoever cast it, ends a change that is not standard: whatever live events its
  -- log holds and however many approvals there are, the folded change is rejected or closed.
  pub rejection_blocks :
      (now : String) (events : List Event)
      → All IsLive events
      → is_turned_down (settle iso now core votes (replay iso core votes events)).status ≡ true
  unfolding replay start
  rejection_blocks now events live =
      settle_vetoed now _ (foldl_vetoed (start core) events live refl)
