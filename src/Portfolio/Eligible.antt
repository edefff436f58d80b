-- ===== src/Portfolio/Eligible.antt =====
-- src/skcoord/portfolio.py, `_candidate_decision`: what a card and its executor are like where there is
-- no reason against the card.
use skcoord.Prelude.{
  ℕ, ◌≤◌, ◌<◌, String, ◌≡◌, refl, sym, ap, ◌∙◌, ◌⊎◌, inl, inr, true, false, not, ◌&&◌, ◌||◌, Option,
  none, some, [], ◌∷◌, ◌++◌, arith, eq_iff, length, contains, any_of, all_of, opt_eq, eq_of_opt_eq,
  is_set, look_up, All, All-mono, ordered_text,
}
use skcoord.Portfolio.IsoFormat.{Moment}
use skcoord.Portfolio.Model.{
  TruthState, ProfileKind, Enrollment, LeaseState, GateState, PortfolioPolicy, AgentCapacity,
  WorkCandidate,
}
use skcoord.Portfolio.Contracts.{is_nil}
use skcoord.Portfolio.Candidate.{
  gate_open, is_approved, only, names_in, knows_dependencies, dependency_done, is_set_after,
  is_set_naive, is_foreign, card_checks, capacity_checks, reasons_against,
}
use skcoord.Portfolio.Passed.{Passed, Passed-append, raised_none, sort_set_none}
use skcoord.Portfolio.Facts.{
  healthy_state, service_kind, enrolled_state, clear_lease, one_of, begun, not_ended, time_of,
  all_of-All, size_of, SameTexts, same_set-SameTexts, IsDated, dated,
}

-- The executor is a healthy service with an observation that holds now, below its limit of work in
-- progress, which may take tasks of the kind in the repository.
pub record IsFree (as_of : ℕ) (card : WorkCandidate) (repo : String) (c : AgentCapacity)
    : Type 0 where
  pub named : c.principal_id ≡ card.target_executor_principal_id
  pub is_a_service : c.profile.profile_kind ≡ ProfileKind.service
  pub profile_healthy : c.profile.profile_state ≡ TruthState.healthy
  pub memory_known : is_set c.profile.memory_principal_id ≡ true
  pub capability_healthy : c.capability_state ≡ TruthState.healthy
  pub observed : (t : ℕ) × (c.observed_at ≡ Moment.aware t) × (t ≤ as_of)
  pub unexpired : (t : ℕ) × (c.expires_at ≡ Moment.aware t) × (as_of < t)
  pub lease_fresh : c.lease_state_fresh ≡ true
  pub counted : c.active_wip ≡ length c.active_card_ids
  pub below_limit : c.active_wip < c.wip_limit
  pub takes_kind : contains card.kind c.allowed_task_classes ≡ true
  pub takes_repo : contains repo c.allowed_repo_ids ≡ true

-- No human is asked, or a human approved this very revision of the card.
abbrev pub GateHolds : WorkCandidate → Type 0
GateHolds card =
    (card.human_gate_state ≡ GateState.not_required)
    ⊎ ((card.human_gate_state ≡ GateState.approved)
        × (is_set card.approval_ref ≡ true)
        × (is_set card.approved_card_hash ≡ true)
        × (card.approved_card_revision ≡ some card.card_revision))

abbrev pub LeaseOver : WorkCandidate → ℕ → Type 0
LeaseOver card as_of =
    (card.lease_expires_at ≡ none)
    ⊎ ((t : ℕ) × (card.lease_expires_at ≡ some (Moment.aware t)) × (t ≤ as_of))

pub record IsEligible (policy : PortfolioPolicy) (as_of : ℕ) (card : WorkCandidate)
    (capacity : Option AgentCapacity) : Type 0 where
  pub task : card.kind ≡ "task"
  pub eligible_state : contains card.state policy.eligible_states ≡ true
  pub leaf : contains "leaf-task" card.tags ≡ true
  pub unlabelled : any_of (λ tag. contains tag policy.excluded_labels) card.tags ≡ false
  pub is_in : card.enrollment_state ≡ Enrollment.enrolled
  pub policy_version : card.enrollment_policy_version ≡ some policy.enrollment_policy_version
  pub attested : is_set card.execution_ready_attestation ≡ true
  pub accepted_by : is_nil card.acceptance_criteria ≡ false
  pub sized :
      (size : String) × (card.size_values ≡ size ∷ [])
      × (contains size ("S" ∷ "M" ∷ "L" ∷ "XL" ∷ []) ≡ true)
  pub states_known : SameTexts card.dependency_ids (names_in card.dependency_states)
  pub revisions_known : SameTexts card.dependency_ids (names_in card.dependency_revisions)
  pub dependencies_done :
      All (λ dep. look_up dep card.dependency_states ≡ some "done") card.dependency_ids
  pub gate : GateHolds card
  pub unowned : is_set card.owner_principal_id ≡ false
  pub unleased : card.lease_state ≡ LeaseState.clear
  pub lease_over : LeaseOver card as_of
  pub ready : (t : ℕ) × (card.ready_at ≡ some (Moment.aware t))
  pub is_dated : IsDated card
  pub repo : String
  pub one_repo : card.repo_ids ≡ repo ∷ []
  pub executor : AgentCapacity
  pub executor_known : capacity ≡ some executor
  pub executor_free : IsFree as_of card repo executor

gate_holds :
    (card : WorkCandidate) (state : GateState)
    → card.human_gate_state ≡ state
    → not (gate_open state) ≡ false
    → (is_approved state
        && (not (is_set card.approval_ref)
            || not (is_set card.approved_card_hash)
            || not (opt_eq card.approved_card_revision (some card.card_revision))))
      ≡ false
    → GateHolds card
gate_holds card GateState.not_required e h g = inl e
gate_holds card GateState.pending e h g = cc
gate_holds card GateState.approved e h g = inr (
  e,
  ground arith,
  ground arith,
  eq_of_opt_eq card.approved_card_revision (some card.card_revision) (ground arith),
)
gate_holds card GateState.rejected e h g = cc
gate_holds card GateState.unknown e h g = cc

lease_ended :
    (card : WorkCandidate) (m : Option Moment) (now : ℕ)
    → card.lease_expires_at ≡ m
    → is_set_naive m ≡ false
    → is_set_after m now ≡ false
    → LeaseOver card now
lease_ended card none now e h g = inl e
lease_ended card (some (Moment.aware t)) now e h g = inr (t, e, ground arith)
lease_ended card (some (Moment.naive t)) now e h g = cc

executor-IsFree :
    (as_of : ℕ) (card : WorkCandidate) (repo : String) (c : AgentCapacity)
    → card.repo_ids ≡ repo ∷ []
    → Passed (capacity_checks as_of card (some c))
    → IsFree as_of card repo c
unfolding capacity_checks
executor-IsFree as_of card repo c one
      (c1, (c2, (c3, (c4, (c5, (c6, (c7, (c8, (c9, (c10, (c11, (c12, _)))))))))))) =
    record {
      named = (eq_iff c.principal_id card.target_executor_principal_id).0 (ground arith);
      is_a_service = service_kind c.profile.profile_kind c2;
      profile_healthy = healthy_state c.profile.profile_state c3;
      memory_known = ground arith;
      capability_healthy = healthy_state c.capability_state c5;
      observed = begun c.observed_at as_of (ground arith) (ground arith);
      unexpired = not_ended c.expires_at as_of (ground arith) (ground arith);
      lease_fresh = ground arith;
      counted = ground arith;
      below_limit = ground arith;
      takes_kind = ground arith;
      takes_repo =
          not_foreign (sym (ap (λ ids. is_foreign (only ids) c.allowed_repo_ids) one) ∙ c12);
    }
  where
    not_foreign :
        not (contains repo c.allowed_repo_ids) ≡ false → contains repo c.allowed_repo_ids ≡ true
    not_foreign h = ground arith

executor_for :
    (as_of : ℕ) (card : WorkCandidate) (repo : String) (capacity : Option AgentCapacity)
    → card.repo_ids ≡ repo ∷ []
    → Passed (capacity_checks as_of card capacity)
    → (c : AgentCapacity) × (capacity ≡ some c) × IsFree as_of card repo c
unfolding capacity_checks
executor_for as_of card repo none one passed = absurd (never passed)
  where
    never : Passed (capacity_checks as_of card none) → ⊥
    never (h, _) = cc
executor_for as_of card repo (some c) one passed =
    (c, refl, executor-IsFree as_of card repo c one passed)

module _ (policy : PortfolioPolicy) (as_of : ℕ) (card : WorkCandidate)
    (capacity : Option AgentCapacity) where
  card-IsEligible :
      Passed (card_checks policy as_of card)
      → Passed (capacity_checks as_of card capacity)
      → IsEligible policy as_of card capacity
  unfolding card_checks
  card-IsEligible
        (
          c1,
          (
            c2,
            (
              c3,
              (
                c4,
                (
                  c5,
                  (
                    c6,
                    (
                      c7,
                      (
                        c8,
                        (
                          c9,
                          (
                            c10,
                            (c11, (c12, (c13, (c14, (c15, (c16, (c17, (c18, (c19, (c20, _)))))))))),
                          ),
                        ),
                      ),
                    ),
                  ),
                ),
              ),
            ),
          ),
        )
        passed =
      record {
        task = (eq_iff card.kind "task").0 (ground arith);
        eligible_state = ground arith;
        leaf = ground arith;
        unlabelled = c4;
        is_in = enrolled_state card.enrollment_state c5;
        policy_version =
            eq_of_opt_eq card.enrollment_policy_version (some policy.enrollment_policy_version)
              (ground arith);
        attested = ground arith;
        accepted_by = c8;
        sized = size_of card.size_values c10;
        states_known = same_set-SameTexts card.dependency_ids _ (ground arith);
        revisions_known = same_set-SameTexts card.dependency_ids _ (ground arith);
        dependencies_done = dependencies_end c11 c12;
        gate = gate_holds card card.human_gate_state refl c13 c14;
        unowned = c15;
        unleased = clear_lease card.lease_state c16;
        lease_over = lease_ended card card.lease_expires_at as_of refl c17 c18;
        ready = time_of card.ready_at c19;
        is_dated = dated card c20;
        repo = (one_of card.repo_ids c9).0;
        one_repo = (one_of card.repo_ids c9).1;
        executor =
            (executor_for as_of card (one_of card.repo_ids c9).0 capacity
              (one_of card.repo_ids c9).1 passed).0;
        executor_known =
            (executor_for as_of card (one_of card.repo_ids c9).0 capacity
              (one_of card.repo_ids c9).1 passed).1;
        executor_free =
            (executor_for as_of card (one_of card.repo_ids c9).0 capacity
              (one_of card.repo_ids c9).1 passed).2;
      }
    where
      dependencies_end :
          not (knows_dependencies card) ≡ false
          → (knows_dependencies card && not (all_of (dependency_done card) card.dependency_ids))
            ≡ false
          → All (λ dep. look_up dep card.dependency_states ≡ some "done") card.dependency_ids
      dependencies_end h g =
          All-mono (λ dep. eq_of_opt_eq (look_up dep card.dependency_states) (some "done"))
            card.dependency_ids
            (all_of-All (dependency_done card) card.dependency_ids (ground arith))

  -- A card with no reason against it is a ready, enrolled, unowned and unleased leaf task whose
  -- dependencies are done and whose gate holds, and its executor is known and free to take it.
  pub reasons_against-IsEligible :
      reasons_against policy as_of card capacity ≡ [] → IsEligible policy as_of card capacity
  unfolding reasons_against
  reasons_against-IsEligible h =
      let (on_card, on_capacity) =
        Passed-append (card_checks policy as_of card) (capacity_checks as_of card capacity) (
          raised_none (card_checks policy as_of card ++ capacity_checks as_of card capacity)
            (sort_set_none _ h)) in
      card-IsEligible on_card on_capacity
