-- ===== src/Itil/Manager/Links.antt =====
-- src/skcoord/itil.py: `_fold_change` keeps the tasks that a change is linked to.
use mathlib.Core.List.{foldl-append}
use skcoord.Prelude.{
  String, ◌≡◌, refl, sym, ◌∙◌, subst, Bool, true, false, ◌&&◌, inl, inr, Option, none, some, List,
  [], ◌∷◌, ◌++◌, foldl, arith, ◌==◌, append_one, any_of, contains, is_set, truthy, Bool-cases,
  if◌then◌else◌,
}
use skcoord.Itil.Event.{Event}
use skcoord.Itil.Cab.{IsoTime, Vote, is_rejection, is_human_approval}
use skcoord.Itil.Change.Gate.{change_type_of, auto_normal, approvals}
use skcoord.Itil.Change.Model.{Status, proposed, scheduled, approved, is_pending, Core, Change}
use skcoord.Itil.Change.Fold.{
  Kind, kind_of, State, start, gate, accepted, set_status, review_on_pass, schedule_from,
  leave_schedule, apply, step, replay,
}
use skcoord.Itil.Change.Settle.{
  is_proposed, settle_standard, settle_auto_normal, settle_cab, settle,
}
use skcoord.Itil.Manager.Update.{Request, has_no_items, effects, is_approved, is_deployed}
use skcoord.Itil.Manager.Effects.{and_false}

append_one_kept : (xs : List String) (x : String) → has_no_items (append_one xs x) ≡ false
append_one_kept [] x = refl
append_one_kept (y ∷ xs) x = refl

set_status_gtd :
    (g : Status) (s : State) (e : Event) (o : Option Status)
    → (set_status g s e o).gtd_ids ≡ s.gtd_ids
set_status_gtd g s e none = refl
set_status_gtd g s e (some t) = refl

review_gtd :
    (b : Bool) (g : Status) (s : State) (e : Event) → (review_on_pass b g s e).gtd_ids ≡ s.gtd_ids
review_gtd true proposed s e = refl
review_gtd true _ s e = refl
review_gtd false g s e = refl

schedule_gtd : (g : Status) (s : State) (e : Event) → (schedule_from g s e).gtd_ids ≡ s.gtd_ids
schedule_gtd approved s e = refl
schedule_gtd _ s e = refl

leave_gtd :
    (n d : String) (g : Status) (s : State) (e : Event)
    → (leave_schedule n d g s e).gtd_ids ≡ s.gtd_ids
leave_gtd n d scheduled s e = refl
leave_gtd n d _ s e = refl

module _ (iso : String → IsoTime) (core : Core) (votes : List Vote) where
  apply_kept :
      (k : Kind) (s : State) (e : Event)
      → has_no_items s.gtd_ids ≡ false
      → has_no_items (apply iso core votes k s e).gtd_ids ≡ false
  unfolding apply
  apply_kept Kind.created s e h = elim (Bool-cases s.seen_created) [
    | inl seen ↦ rw seen h
    | inr unseen ↦ rw unseen h
  ]
  apply_kept Kind.status s e h =
      rw (set_status_gtd (gate iso core votes s) s e (accepted (gate iso core votes s) e)) h
  apply_kept Kind.link_problem s e h = h
  apply_kept Kind.title s e h = h
  apply_kept Kind.tags s e h = h
  apply_kept Kind.gtd_link s e h = ground (arith, append_one_kept s.gtd_ids e.id)
  apply_kept Kind.note s e h = h
  apply_kept Kind.auto_approved s e h = h
  apply_kept Kind.pr_link s e h = h
  apply_kept Kind.validation s e h =
      subst (λ g. has_no_items g ≡ false) (sym (review_gtd e.passed s.status _ e)) h
  apply_kept Kind.schedule s e h = rw (schedule_gtd (gate iso core votes s) s e) h
  apply_kept Kind.unschedule s e h = rw (leave_gtd "unschedule" "unscheduled" s.status s e) h
  apply_kept Kind.window_missed s e h =
      rw (leave_gtd "window_missed" "window missed" s.status s e) h
  apply_kept Kind.silent s e h = h

  foldl_kept :
      (events : List Event) (s : State)
      → has_no_items s.gtd_ids ≡ false
      → has_no_items (foldl (step iso core votes) s events).gtd_ids ≡ false
  unfolding step
  foldl_kept [] s h = h
  foldl_kept (e ∷ events) s h =
      foldl_kept events (step iso core votes s e) (apply_kept (kind_of e.kind) s e h)

  step_linked :
      (s : State) (link : Event)
      → kind_of link.kind ≡ Kind.gtd_link
      → truthy link.id ≡ true
      → has_no_items (step iso core votes s link).gtd_ids ≡ false
  unfolding step
  step_linked s link is_link set =
      subst (λ k. has_no_items (apply iso core votes k s link).gtd_ids ≡ false) (sym is_link)
        (added s.gtd_ids)
    where
      added :
          (ids : List String)
          → has_no_items (
              if truthy link.id
              then (if contains link.id ids then ids else append_one ids link.id)
              else ids)
            ≡ false
      added [] = ground arith
      added (x ∷ ids) = ground (arith, append_one_kept (x ∷ ids) link.id)

  -- Behind a link with an id, the change has a task.
  pub replay_linked :
      (before more : List Event) (link : Event)
      → kind_of link.kind ≡ Kind.gtd_link
      → truthy link.id ≡ true
      → has_no_items (replay iso core votes (before ++ link ∷ more)).gtd_ids ≡ false
  unfolding replay
  replay_linked before more link is_link set =
      rw (foldl-append (step iso core votes) (start core) before (link ∷ more))
        (foldl_kept more _ (step_linked _ link is_link set))

  pub replay_kept :
      (events more : List Event)
      → has_no_items (replay iso core votes events).gtd_ids ≡ false
      → has_no_items (replay iso core votes (events ++ more)).gtd_ids ≡ false
  unfolding replay
  replay_kept events more h =
      rw (foldl-append (step iso core votes) (start core) events more) (foldl_kept more _ h)

  standard_gtd : (now : String) (s : State) → (settle_standard now core s).gtd_ids ≡ s.gtd_ids
  unfolding settle_standard
  standard_gtd now s =
      elim (Bool-cases (change_type_of core == "standard" && is_proposed s.status)) [
        | inl auto ↦ rw auto refl
        | inr other ↦ rw other refl
      ]

  auto_gtd : (now : String) (s : State) → (settle_auto_normal now core votes s).gtd_ids ≡ s.gtd_ids
  unfolding settle_auto_normal
  auto_gtd now s =
      elim (Bool-cases (
        change_type_of core == "normal" && is_proposed s.status && auto_normal core s.tags votes)) [
          | inl auto ↦ rw auto refl
          | inr other ↦ rw other refl
        ]

  cab_gtd : (s : State) → (settle_cab iso votes s).gtd_ids ≡ s.gtd_ids
  unfolding settle_cab
  cab_gtd s = elim (Bool-cases (is_pending s.status)) [
    | inr settled ↦ rw settled refl
    | inl pending ↦ elim (Bool-cases (any_of is_rejection votes)) [
      | inl vetoed ↦ rw (pending, vetoed) refl
      | inr free ↦
          elim (Bool-cases (any_of (is_human_approval iso) (approvals s.prepared_by votes))) [
            | inl carried ↦ rw (pending, free, carried) refl
            | inr waiting ↦ rw (pending, free, waiting) refl
          ]
    ]
  ]

  pub settle_gtd : (now : String) (s : State) → (settle iso now core votes s).gtd_ids ≡ s.gtd_ids
  unfolding settle
  settle_gtd now s =
      cab_gtd (settle_auto_normal now core votes (settle_standard now core s))
      ∙ auto_gtd now (settle_standard now core s)
      ∙ standard_gtd now s

  pub busy_none :
      (now : String) (q : Request) (new_status : String) (events : List Event) (c : Change)
      → has_no_items c.gtd_item_ids ≡ false
      → (effects iso now core votes q new_status events c).tasks ≡ []
  unfolding effects
  busy_none now q new_status events c busy =
      elim (Bool-cases (new_status == "approved" && is_approved c.status)) [
        | inl taken ↦ rw (taken, busy, and_false (is_set core.implementer)) refl
        | inr other ↦ elim (Bool-cases (new_status == "deployed" && is_deployed c.status)) [
          | inl out ↦ rw (other, out) refl
          | inr nothing ↦ rw (other, nothing) refl
        ]
      ]
