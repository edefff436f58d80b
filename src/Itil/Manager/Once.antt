-- ===== src/Itil/Manager/Once.antt =====
-- src/skcoord/itil.py: `update_change` gives the work of a change once.
use skcoord.Prelude.{
  String, ◌≡◌, ◌≢◌, refl, sym, ◌∙◌, subst, true, false, ◌&&◌, ◌⊎◌, inl, inr, Option, none, some,
  get_or, List, [], ◌∷◌, ◌++◌, ◌==◌, append_one, is_set, truthy, Bool-cases, Result, ok, err,
}
use skcoord.Itil.Event.{Event}
use skcoord.Itil.Cab.{IsoTime, Vote}
use skcoord.Itil.Change.Model.{Core, Change}
use skcoord.Itil.Change.Fold.{Kind, kind_of, replay}
use skcoord.Itil.Change.Settle.{settle, fold_change}
use skcoord.Itil.Manager.Update.{
  Request, Updated, no_status, has_no_items, line, linked, effects, is_approved, is_deployed,
  status_line, with_status, without_status, update_known, update_change,
}
use skcoord.Itil.Manager.Effects.{Keeps, finish-Keeps}
use skcoord.Itil.Manager.Links.{replay_linked, replay_kept, settle_gtd, busy_none}

-- The event that links a change to its task.
abbrev pub link_of : Request → Event
link_of q = record (line q.second q.agent "gtd_link") { id = get_or q.gtd "" }

-- Where a call emits a task, its log ends with the link to it.
abbrev Linked : Request → Updated → Type 0
Linked q u = (u.tasks ≡ []) ⊎ (before : List Event) × (u.events ≡ before ++ link_of q ∷ [])

set_id : (o : Option String) → is_set o ≡ true → truthy (get_or o "") ≡ true
set_id none h = cc
set_id (some id) h = h

link_kind : kind_of "gtd_link" ≡ Kind.gtd_link
unfolding kind_of
link_kind = refl

linked_end :
    (q : Request) (events : List Event)
    → is_set q.gtd ≡ true
    → linked q events ≡ events ++ link_of q ∷ []
linked_end q events set = rw set refl

module _ (iso : String → IsoTime) (now : String) (core : Core) (votes : List Vote) (q : Request)
    (set : is_set q.gtd ≡ true) where
  effects-Linked :
      (new_status : String) (events : List Event) (c : Change)
      → Linked q (effects iso now core votes q new_status events c)
  unfolding effects
  effects-Linked new_status events c =
      elim (Bool-cases (new_status == "approved" && is_approved c.status)) [
        | inl taken ↦ elim (Bool-cases (is_set core.implementer && has_no_items c.gtd_item_ids)) [
          | inl first ↦ rw (taken, first) (inr (events, linked_end q events set))
          | inr no_work ↦ rw (taken, no_work) (inl refl)
        ]
        | inr other ↦ elim (Bool-cases (new_status == "deployed" && is_deployed c.status)) [
          | inl out ↦ rw (other, out) (inl refl)
          | inr nothing ↦ rw (other, nothing) (inl refl)
        ]
      ]

  status-Linked :
      (new_status : String) (events : List Event)
      → Linked q (with_status iso now core votes q new_status events)
  unfolding with_status
  status-Linked new_status events = folded (fold_change iso now core after votes)
    where
      after : List Event
      after = append_one events (status_line iso now core votes q new_status)

      folded :
          (r : Result Change)
          → Linked q (elim r as (λ _. Updated) [
            | err x ↦ record { events = after; announced = []; tasks = []; change = err no_status }
            | ok c ↦ effects iso now core votes q new_status after c
          ])
      folded (err x) = inl refl
      folded (ok c) = effects-Linked new_status after c

  unmarked-Linked : (events : List Event) → Linked q (without_status iso now core votes q events)
  unfolding without_status
  unmarked-Linked events = elim (Bool-cases (truthy q.note)) [
    | inl noted ↦ rw noted (inl refl)
    | inr blank ↦ rw blank (inl refl)
  ]

  known-Linked :
      (o : Option String) (events : List Event)
      → Linked q (update_known iso now core votes q o events)
  unfolding update_known
  known-Linked none events = unmarked-Linked events
  known-Linked (some new_status) events = elim (Bool-cases (truthy new_status)) [
    | inl named ↦ rw named (status-Linked new_status events)
    | inr unnamed ↦ rw unnamed (unmarked-Linked events)
  ]

-- A later call, on a log that folds to a change with a task.
module _ (iso : String → IsoTime) (now : String) (core : Core) (votes : List Vote) (q : Request)
    (events : List Event) (busy : has_no_items (replay iso core votes events).gtd_ids ≡ false) where
  folded_busy :
      (more : List Event) {c : Change}
      → fold_change iso now core (events ++ more) votes ≡ ok c
      → has_no_items c.gtd_item_ids ≡ false
  unfolding fold_change
  folded_busy more {c} p =
      let s = replay iso core votes (events ++ more) in
      let (status, items) =
        subst (Keeps (settle iso now core votes s)) p
          (finish-Keeps iso now core (settle iso now core votes s)) in
      subst (λ ids. has_no_items ids ≡ false) (sym (items ∙ settle_gtd iso core votes now s))
        (replay_kept iso core votes events more busy)

  status_idle :
      (new_status : String) → (with_status iso now core votes q new_status events).tasks ≡ []
  unfolding with_status
  status_idle new_status = folded (fold_change iso now core after votes) refl
    where
      after : List Event
      after = append_one events (status_line iso now core votes q new_status)

      folded :
          (r : Result Change)
          → fold_change iso now core after votes ≡ r
          → (elim r as (λ _. Updated) [
            | err x ↦ record { events = after; announced = []; tasks = []; change = err no_status }
            | ok c ↦ effects iso now core votes q new_status after c
          ]).tasks
            ≡ []
      folded (err x) p = refl
      folded (ok c) p =
          busy_none iso core votes now q new_status after c
            (folded_busy (status_line iso now core votes q new_status ∷ []) p)

  unmarked_idle : (without_status iso now core votes q events).tasks ≡ []
  unfolding without_status
  unmarked_idle = elim (Bool-cases (truthy q.note)) [
    | inl noted ↦ rw noted refl
    | inr blank ↦ rw blank refl
  ]

  known_idle : (o : Option String) → (update_known iso now core votes q o events).tasks ≡ []
  unfolding update_known
  known_idle none = unmarked_idle
  known_idle (some new_status) = elim (Bool-cases (truthy new_status)) [
    | inl named ↦ rw named (status_idle new_status)
    | inr unnamed ↦ rw unnamed unmarked_idle
  ]

-- A change is given to its implementer once. When a call has emitted the task, under some id, then no
-- later call emits one, with whatever status and votes, on the log that the first call left and
-- whatever was appended to it since.
pub update_change_once :
    (iso : String → IsoTime) (core : Core) (now : String) (votes : List Vote) (q : Request)
    (events : List Event) (now' : String) (votes' : List Vote) (q' : Request) (more : List Event)
    → is_set q.gtd ≡ true
    → (update_change iso now (some core) votes q events).tasks ≢ []
    → (update_change iso now'
        (some core)
        votes'
        q'
        ((update_change iso now (some core) votes q events).events ++ more)).tasks
      ≡ []
unfolding update_change
update_change_once iso core now votes q events now' votes' q' more set emitted =
    known_idle iso now' core votes' q' (u.events ++ more)
      (replay_kept iso core votes' u.events more
        (busy (known-Linked iso now core votes q set q.new_status events)))
      q'.new_status
  where
    u : Updated
    u = update_known iso now core votes q q.new_status events

    busy : Linked q u → has_no_items (replay iso core votes' u.events).gtd_ids ≡ false
    busy (inl none_emitted) = absurd (emitted none_emitted)
    busy (inr (before, p)) =
        subst (λ l. has_no_items (replay iso core votes' l).gtd_ids ≡ false) (sym p)
          (replay_linked iso core votes' before [] (link_of q) link_kind (set_id q.gtd set))
