-- ===== src/Coord/Release.antt =====
-- src/skcoord/coordination.py: `_release_claim_locked`, with `current_claim_precondition` of
-- src/skcoord/card_store.py before it and `_release_transition_is_applied` behind it.
use skcoord.Prelude.{
  String, Bool, true, false, not, ◌&&◌, ◌||◌, Option, none, some, List, [], ◌∷◌, ◌==◌, contains,
  is_set, is_some, opt_eq, keep_if, if◌then◌else◌, Result, ok, err, ◌>>=◌, Error, value_error,
}
use skcoord.Card.Model.{Conflict, Card, column_value}
use skcoord.Card.Event.{Event}
use skcoord.Card.Claim.{matches, is_backlog}
use skcoord.Card.Fold.{State, step}
use skcoord.Card.Release.{current_claim_precondition, release_event}
use skcoord.Coord.Model.{AgentFile, load_agent, save_agent}

unfoldable pub release_file : String → AgentFile → AgentFile
release_file task_id a = record a {
  claimed_tasks = keep_if (λ id. not (id == task_id)) a.claimed_tasks;
  current_task = if opt_eq a.current_task (some task_id) then none else a.current_task;
}

pub record Release : Type 0 where
  pub owner : String
  pub task_id : String
  pub actor : String
  pub expected_claim_revision : Option String
  pub allow_missing_card_store : Bool

-- The card store as the call finds it: whether it is written, what the card folds to, the card's own
-- events, and whether the card has a core.
pub record Store : Type 0 where
  pub write_enabled : Bool
  pub folded : Option State
  pub events : List Event
  pub has_core : Bool

abbrev pub card_of : Option State → Option Card
card_of none = none
card_of (some s) = some s.card

-- The claim that is released is not the one that the card's owner holds.
abbrev pub loses : Option State → String → Bool
loses none owner = false
loses (some s) owner = not (opt_eq s.card.owner (some owner))

-- The checks on the revision that the caller expects.
unfoldable pub check_expected : Store → Release → Option String → Result (Option String)
check_expected st q rev =
    if (loses st.folded q.owner && not (is_set q.expected_claim_revision))
    then err (value_error "exact expected claim revision required to release the conflict")
    else if (is_some q.expected_claim_revision && not (opt_eq rev q.expected_claim_revision))
    then err (value_error "claim revision conflict")
    else ok rev

unfoldable pub claim_revision : Store → Release → Result (Option String)
unfolding check_expected
claim_revision st q = current_claim_precondition (card_of st.folded) st.events q.owner >>= λ rev.
    check_expected st q rev

-- conflicts == expected_conflicts, entry by entry
abbrev pub same_conflict : Conflict → Conflict → Bool
same_conflict x y =
    opt_eq x.event_id y.event_id
    && x.owner == y.owner
    && opt_eq x.claim_revision y.claim_revision
    && opt_eq x.existing_owner y.existing_owner
    && opt_eq x.existing_claim_revision y.existing_claim_revision

abbrev pub same_conflicts : List Conflict → List Conflict → Bool
same_conflicts [] [] = true
same_conflicts [] (y ∷ ys) = false
same_conflicts (x ∷ xs) [] = false
same_conflicts (x ∷ xs) (y ∷ ys) = same_conflict x y && same_conflicts xs ys

abbrev pub is_single : List Conflict → Bool
is_single (x ∷ []) = true
is_single _ = false

-- card.status == before.status
abbrev pub same_column : Card → Card → Bool
same_column c d = column_value c.status == column_value d.status

-- _release_transition_is_applied, of the card before and after, where the transition is in the log.
unfoldable pub release_is_applied : Card → Card → String → String → Bool
release_is_applied before after owner revision =
    if (opt_eq before.owner (some owner) && opt_eq before.meta.claim_revision (some revision))
    then not (is_some after.owner)
      && is_backlog after.status
      && not (is_some after.meta.claim_revision)
    else is_single (keep_if (matches (some owner) (some revision)) before.meta.claim_conflicts)
      && opt_eq after.owner before.owner
      && same_column after before
      && opt_eq after.meta.claim_revision before.meta.claim_revision
      && same_conflicts after.meta.claim_conflicts
          (keep_if (λ x. not (matches (some owner) (some revision) x)) before.meta.claim_conflicts)

-- What the call leaves: an exception before anything was written, False, the agent files and the event
-- that was appended, or the RuntimeError behind which the agent's file is restored.
pub data Released : Type 0 where
  failed : Error → Released
  not_held : Released
  released : List AgentFile → Option Event → Released
  uncertain : Released

-- The mirrored release: the event is appended, and no other writer's event is merged behind it.
unfoldable pub mirrored : State → Release → List AgentFile → Option String → Released
unfolding release_is_applied
mirrored s q agents none = uncertain
mirrored s q agents (some revision) = elim (release_event q.owner q.actor (some revision)) [
  | none ↦ uncertain
  | some e ↦ elim (step s e) [
    | err x ↦ uncertain
    | ok t ↦
        if release_is_applied s.card t.card q.owner revision
        then released agents (some e)
        else uncertain
  ]
]

-- The release of a claim that the agent's file holds, with the agent files as it leaves them.
unfoldable pub release_held : Store → Release → List AgentFile → Released
release_held st q agents =
    if not st.write_enabled then released agents none else elim (claim_revision st q) [
      | err x ↦
          if (not q.allow_missing_card_store || st.has_core) then failed x else released agents none
      | ok rev ↦ elim st.folded [ none ↦ uncertain | some s ↦ mirrored s q agents rev ]
    ]

unfoldable pub release_claim : Store → List AgentFile → Release → Released
unfolding release_held release_file
release_claim st agents q = elim (load_agent agents q.owner) [
  | none ↦ failed (value_error "claim owner not found")
  | some a ↦
      if (not (contains q.task_id a.claimed_tasks) && not (opt_eq a.current_task (some q.task_id)))
      then not_held
      else release_held st q (save_agent (release_file q.task_id a) agents)
]
