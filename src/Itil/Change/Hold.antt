-- ===== src/Itil/Change/Hold.antt =====
-- src/skcoord/itil.py: what keeps a change short of approval through the loop of `_fold_change`, and
-- through the derivation behind it.
use skcoord.Prelude.{
  inl, inr, ◌⊎◌, String, ◌≡◌, refl, Bool, true, false, Option, none, some, List, [], ◌∷◌, foldl,
  arith, ◌==◌, eq_iff, get_or, All,
}
use skcoord.Itil.Event.{Event}
use skcoord.Itil.Cab.{IsoTime, Vote}
use skcoord.Itil.Change.Model.{
  Status, proposed, reviewing, approved, rejected, closed, value, transitions, Core,
}
use skcoord.Itil.Change.Gate.{change_type_of, auto_normal, human_approved, cab_resolved_status}
use skcoord.Itil.Change.Fold.{
  Kind, kind_of, State, accepted, gate, set_status, cab_gated, apply, step,
}
use skcoord.Itil.Change.Moves.{accepted_cases}
use skcoord.Itil.Change.Settle.{settle_standard, settle_auto_normal, settle_cab, settle}

-- The statuses that need no approval.
abbrev pub is_held : Status → Bool
is_held proposed = true
is_held reviewing = true
is_held rejected = true
is_held closed = true
is_held _ = false

-- The event does not come from the migration of the old records.
abbrev pub IsLive : Event → Type 0
IsLive e = (e.node == "migrated") ≡ false

-- A change to which no automatic approval applies.
abbrev pub NeedsVote : Core → Type 0
NeedsVote core =
    ((change_type_of core == "standard") ≡ false) × ((core.created_by == "operator") ≡ false)

module _ (iso : String → IsoTime) (core : Core) (votes : List Vote) where
  gate_held :
      (status : Status) (tags : List String) (drafter : Option String)
      → NeedsVote core
      → human_approved iso core votes drafter ≡ false
      → is_held status ≡ true
      → is_held (cab_resolved_status iso core votes status tags drafter) ≡ true
  unfolding cab_resolved_status auto_normal
  gate_held status tags drafter needs none_approved held = ground arith

held_edge :
    (gate t : Status) (e : Event)
    → IsLive e
    → is_held gate ≡ true
    → transitions gate t ≡ true
    → get_or e.to "" ≡ value t
    → cab_gated gate e ≡ false
    → is_held t ≡ true
held_edge gate approved e live held edge named ungated =
    ground (arith, eq_iff (get_or e.to "") "approved")
held_edge gate _ e live held edge named ungated = ground arith

-- What an accepted live event does to a held gate.
accepted-held :
    (gate : Status) (e : Event) {t : Status}
    → IsLive e
    → is_held gate ≡ true
    → accepted gate e ≡ some t
    → is_held t ≡ true
accepted-held gate e {t} live held h =
    let (edge, named, ungated, _) = accepted_cases gate e h in
    held_edge gate t e live held edge named ungated

-- What the invariant of the loop asks of an event: it is live, and if it attaches a draft, then some
-- qualifying human other than its writer has not approved.
module _ (iso : String → IsoTime) (core : Core) (votes : List Vote) where
  abbrev pub Unauthorised : Event → Type 0
  Unauthorised e =
      IsLive e
      × (kind_of e.kind ≡ Kind.pr_link → human_approved iso core votes (some e.writer) ≡ false)

  pub record Blocked (s : State) : Type 0 where
    pub held : is_held s.status ≡ true
    pub unapproved : human_approved iso core votes s.prepared_by ≡ false

-- The branches that read the gate.
abbrev pub reads_gate : Kind → Bool
reads_gate Kind.status = true
reads_gate Kind.schedule = true
reads_gate _ = false

pub settle_standard-none :
    (now : String) (core : Core) (s : State)
    → (change_type_of core == "standard") ≡ false
    → settle_standard now core s ≡ s
unfolding settle_standard
settle_standard-none now core s h = rw h

pub settle_auto_normal-none :
    (now : String) (core : Core) (votes : List Vote) (s : State)
    → (core.created_by == "operator") ≡ false
    → settle_auto_normal now core votes s ≡ s
unfolding settle_auto_normal auto_normal
settle_auto_normal-none now core votes s h = ground arith

module _ (iso : String → IsoTime) (core : Core) (votes : List Vote) where
  set_status-held :
      (s : State) (e : Event) (gate : Status) (o : Option Status)
      → is_held s.status ≡ true
      → ((t : Status) → o ≡ some t → is_held t ≡ true)
      → is_held (set_status gate s e o).status ≡ true
  set_status-held s e gate none held h = held
  set_status-held s e gate (some t) held h = h t refl

  pub apply-held :
      (k : Kind) (s : State) (e : Event)
      → IsLive e
      → is_held s.status ≡ true
      → is_held (gate iso core votes s) ≡ true
      → is_held (apply iso core votes k s e).status ≡ true
  unfolding apply
  apply-held Kind.status s e live held gated =
      set_status-held s e _ _ held (λ t. accepted-held _ e live gated)
  apply-held Kind.schedule s e live held gated = ground arith
  apply-held Kind.created s e live held gated = ground arith
  apply-held _ s e live held gated = ground arith

  -- The branches that do not read the gate.
  pub apply-held_ungated :
      (k : Kind) (s : State) (e : Event)
      → reads_gate k ≡ false
      → is_held s.status ≡ true
      → is_held (apply iso core votes k s e).status ≡ true
  unfolding apply
  apply-held_ungated Kind.status s e ungated held = cc
  apply-held_ungated Kind.schedule s e ungated held = cc
  apply-held_ungated Kind.created s e ungated held = ground arith
  apply-held_ungated _ s e ungated held = ground arith

  pub apply-prepared_by :
      (k : Kind) (s : State) (e : Event)
      → ((apply iso core votes k s e).prepared_by ≡ s.prepared_by)
        ⊎ (k ≡ Kind.pr_link) × ((apply iso core votes k s e).prepared_by ≡ some e.writer)
  unfolding apply
  apply-prepared_by Kind.pr_link s e = inr (refl, refl)
  apply-prepared_by Kind.created s e = inl (ground arith)
  apply-prepared_by _ s e = inl (ground arith)

module _ (iso : String → IsoTime) (core : Core) (votes : List Vote) (needs : NeedsVote core) where
  pub step-Blocked :
      (s : State) (e : Event)
      → Unauthorised iso core votes e
      → Blocked iso core votes s
      → Blocked iso core votes (step iso core votes s e)
  unfolding step
  step-Blocked s e (live, drafted) b = record {
    held =
        apply-held iso core votes (kind_of e.kind) s e live b.held
          (gate_held iso core votes s.status s.tags s.prepared_by needs b.unapproved b.held);
    unapproved = elim (apply-prepared_by iso core votes (kind_of e.kind) s e) [
      | inl same ↦ rw same b.unapproved
      | inr (link, new) ↦ rw new (drafted link)
    ];
  }

  pub foldl-Blocked :
      (s : State) (events : List Event)
      → All (Unauthorised iso core votes) events
      → Blocked iso core votes s
      → Blocked iso core votes (foldl (step iso core votes) s events)
  foldl-Blocked s [] u b = b
  foldl-Blocked s (e ∷ events) (u, us) b =
      foldl-Blocked (step iso core votes s e) events us (step-Blocked s e u b)

  settle_cab-held :
      (s : State) → Blocked iso core votes s → is_held (settle_cab iso votes s).status ≡ true
  unfolding settle_cab human_approved
  settle_cab-held s b = ground (arith, b.unapproved)

  pub settle-held :
      (now : String) (s : State)
      → Blocked iso core votes s
      → is_held (settle iso now core votes s).status ≡ true
  unfolding settle
  settle-held now s b =
      rw (settle_standard-none now core s needs.0)
        (rw (settle_auto_normal-none now core votes s needs.1) (settle_cab-held s b))
