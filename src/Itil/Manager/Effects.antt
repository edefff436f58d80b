-- ===== src/Itil/Manager/Effects.antt =====
-- src/skcoord/itil.py: what `update_change` announces, and whom it gives work.
use skcoord.Prelude.{
  String, ◌≡◌, refl, sym, subst, Bool, true, false, ◌&&◌, inl, inr, Option, none, some, get_or,
  List, [], ◌∷◌, arith, ◌==◌, All, append_one, truthy, Bool-cases, Option-cases, Result, ok, err,
}
use skcoord.Itil.Event.{Event}
use skcoord.Itil.Cab.{IsoTime, Vote}
use skcoord.Itil.Change.Model.{Status, is_change_type, is_risk, Core, Change}
use skcoord.Itil.Change.Gate.{change_type_of, human_approved}
use skcoord.Itil.Change.Fold.{State, replay}
use skcoord.Itil.Change.Settle.{settle, finish, fold_change}
use skcoord.Itil.Change.Hold.{is_held, IsLive, NeedsVote}
use skcoord.Itil.Change.Approval.{approval_takes_vote}
use skcoord.Itil.Manager.Update.{
  Request, Updated, no_status, is_approved, is_deployed, effects, status_line, with_status,
  without_status, update_known, update_change,
}

-- The record has the status and the tasks of the fold.
abbrev pub Keeps : State → Result Change → Type 0
Keeps s (err x) = Unit
Keeps s (ok c) = (c.status ≡ s.status) × (c.gtd_item_ids ≡ s.gtd_ids)

pub finish-Keeps :
    (iso : String → IsoTime) (now : String) (core : Core) (s : State)
    → Keeps s (finish iso now core s)
unfolding finish
finish-Keeps iso now core s = elim (Option-cases core.id) [
  | inl absent ↦ rw absent tt
  | inr (id, there) ↦ rw there (elim (Bool-cases (is_change_type (change_type_of core))) [
    | inr wrong ↦ rw wrong tt
    | inl typed ↦ elim (Bool-cases (is_risk (get_or core.risk "medium"))) [
      | inr wrong ↦ rw (typed, wrong) tt
      | inl risky ↦ rw (typed, risky) (refl, refl)
    ]
  ])
]

folded_as :
    (iso : String → IsoTime) (now : String) (core : Core) (votes : List Vote) (events : List Event)
    {c : Change}
    → fold_change iso now core events votes ≡ ok c
    → c.status ≡ (settle iso now core votes (replay iso core votes events)).status
unfolding fold_change
folded_as iso now core votes events {c} h =
    let s = settle iso now core votes (replay iso core votes events) in
    (subst (Keeps s) h (finish-Keeps iso now core s)).0

All-append_one :
    (events : List Event) (e : Event)
    → All IsLive events
    → IsLive e
    → All IsLive (append_one events e)
All-append_one [] e live now = (now, tt)
All-append_one (f ∷ events) e (here, live) now = (here, All-append_one events e live now)

-- Nothing is announced, and no one is given work.
abbrev pub IsSilent : Updated → Type 0
IsSilent u = (u.announced ≡ []) × (u.tasks ≡ [])

pub and_false : (b : Bool) → (b && false) ≡ false
and_false b = ground arith

module _ (iso : String → IsoTime) (now : String) (core : Core) (votes : List Vote) where
  held-IsSilent :
      (q : Request) (new_status : String) (events : List Event) (c : Change)
      → is_held c.status ≡ true
      → IsSilent (effects iso now core votes q new_status events c)
  unfolding effects
  held-IsSilent q new_status events c held =
      rw
        (
          not_approved c.status held,
          not_deployed c.status held,
          and_false (new_status == "approved"),
          and_false (new_status == "deployed"),
        )
        (refl, refl)
    where
      not_approved : (s : Status) → is_held s ≡ true → is_approved s ≡ false
      not_approved s h = ground arith

      not_deployed : (s : Status) → is_held s ≡ true → is_deployed s ≡ false
      not_deployed s h = ground arith

  module _ (q : Request) (events : List Event) (needs : NeedsVote core)
      (none_approved : human_approved iso core votes none ≡ false) (live : All IsLive events)
      (here : (q.first.node == "migrated") ≡ false) where
    status-IsSilent :
        (new_status : String) → IsSilent (with_status iso now core votes q new_status events)
    unfolding with_status
    status-IsSilent new_status =
        shown
          (fold_change iso now core
            (append_one events (status_line iso now core votes q new_status)) votes)
          refl
      where
        after : List Event
        after = append_one events (status_line iso now core votes q new_status)

        shown :
            (r : Result Change)
            → fold_change iso now core after votes ≡ r
            → IsSilent (elim r as (λ _. Updated) [
              | err x ↦ record {
                events = after;
                announced = [];
                tasks = [];
                change = err no_status;
              }
              | ok c ↦ effects iso now core votes q new_status after c
            ])
        shown (err x) p = (refl, refl)
        shown (ok c) p = held-IsSilent q new_status after c (
            subst (λ s. is_held s ≡ true) (sym (folded_as iso now core votes after p))
              (approval_takes_vote iso now core votes after needs none_approved
                (All-append_one events (status_line iso now core votes q new_status) live here)))

    no_status-IsSilent : IsSilent (without_status iso now core votes q events)
    unfolding without_status
    no_status-IsSilent = elim (Bool-cases (truthy q.note)) [
      | inl noted ↦ rw noted (refl, refl)
      | inr blank ↦ rw blank (refl, refl)
    ]

    known-IsSilent : (o : Option String) → IsSilent (update_known iso now core votes q o events)
    unfolding update_known
    known-IsSilent none = no_status-IsSilent
    known-IsSilent (some new_status) = elim (Bool-cases (truthy new_status)) [
      | inl set ↦ rw set (status-IsSilent new_status)
      | inr unset ↦ rw unset no_status-IsSilent
    ]

-- A change that is no standard change and that the operator did not create, and that no human approval
-- qualifies, is never announced as approved or deployed, and no one is given the work to implement it,
-- whatever status a caller asks for and whatever live events the log holds.
pub update_change-IsSilent :
    (iso : String → IsoTime) (now : String) (core : Core) (votes : List Vote) (q : Request)
    (events : List Event)
    → NeedsVote core
    → human_approved iso core votes none ≡ false
    → All IsLive events
    → (q.first.node == "migrated") ≡ false
    → IsSilent (update_change iso now (some core) votes q events)
unfolding update_change
update_change-IsSilent iso now core votes q events needs none_approved live here =
    known-IsSilent iso now core votes q events needs none_approved live here q.new_status
