-- ===== src/Portfolio/Candidate.antt =====
-- src/skcoord/portfolio.py: `_candidate_decision`, which collects the reasons against one card.
-- `local_zone` is the machine's time zone, by which `astimezone` reads a clock reading without one; it
-- may raise.
use Prim.Native.Nat.{◌^◌}
use skcoord.Prelude.{
  ℕ, zero, suc, ◌-◌, String, Bool, true, false, not, ◌&&◌, ◌||◌, Option, none, some, get_or, List,
  [], ◌∷◌, ◌++◌, map, ◌==◌, leb, length, contains, any_of, all_of, opt_eq, is_set, look_up, concat,
  ℤ, pos, negsuc, sort_set, ordered_text, Result, Error, err, ok, ◌>>=◌, if◌then◌else◌,
}
use skcoord.Portfolio.IsoFormat.{Moment, iso_text}
use skcoord.Portfolio.Model.{
  truth_text, is_healthy, ClassOfService, same_service, same_priority, is_service, Enrollment,
  enrollment_text, LeaseState, lease_text, GateState, gate_text, PortfolioPolicy, AgentCapacity,
  WorkCandidate, RankingKey, EligibilityDecision, CanonicalWarning,
}
use skcoord.Portfolio.Contracts.{is_nil}
use skcoord.Portfolio.Quality.{raised, is_aware, aware_at, is_after, is_until}

-- order.index(name)
unfoldable pub index_of : {A : Type 0} → (A → Bool) → List A → Result ℕ
index_of test [] = err (Error.value_error "x not in tuple")
index_of test (x ∷ l) =
    let rest = index_of test l in if test x then ok 0 else do n ← rest; ok (suc n)

abbrev pub is_enrolled : Enrollment → Bool
is_enrolled Enrollment.enrolled = true
is_enrolled _ = false

abbrev pub is_clear : LeaseState → Bool
is_clear LeaseState.clear = true
is_clear _ = false

abbrev pub gate_open : GateState → Bool
gate_open GateState.not_required = true
gate_open GateState.approved = true
gate_open _ = false

abbrev pub is_approved : GateState → Bool
is_approved GateState.approved = true
is_approved _ = false

-- len(values) == 1
abbrev pub is_single : List String → Bool
is_single (x ∷ []) = true
is_single _ = false

-- values[0] of a tuple of one
abbrev pub only : List String → Option String
only (x ∷ []) = some x
only _ = none

abbrev pub size_check : List String → Bool × String
size_check (size ∷ []) = (not (contains size ("S" ∷ "M" ∷ "L" ∷ "XL" ∷ [])), "size_invalid")
size_check _ = (true, "size_count_invalid")

-- set(xs) == set(ys)
abbrev pub same_set : List String → List String → Bool
same_set xs ys = all_of (λ x. contains x ys) xs && all_of (λ y. contains y xs) ys

abbrev pub names_in : List (String × String) → List String
names_in = map (λ e. e.0)

-- Every dependency has a state and a revision, and nothing else has one.
abbrev pub knows_dependencies : WorkCandidate → Bool
knows_dependencies card =
    same_set card.dependency_ids (names_in card.dependency_states)
    && same_set card.dependency_ids (names_in card.dependency_revisions)

-- dependency_states[dep] == "done"
abbrev pub dependency_done : WorkCandidate → String → Bool
dependency_done card dep = opt_eq (look_up dep card.dependency_states) (some "done")

abbrev pub is_set_after : Option Moment → ℕ → Bool
is_set_after none now = false
is_set_after (some m) now = is_after m now

abbrev pub is_set_naive : Option Moment → Bool
is_set_naive none = false
is_set_naive (some m) = not (is_aware m)

abbrev pub missing_or : Option Moment → String → String → String
missing_or none missing invalid = missing
missing_or (some m) missing invalid = invalid

abbrev pub is_class : ClassOfService → WorkCandidate → Bool
is_class c card = same_service card.class_of_service c

-- The conditions on the card itself.
unfoldable pub card_checks : PortfolioPolicy → ℕ → WorkCandidate → List (Bool × String)
card_checks policy as_of card =
    (not (card.kind == "task"), "not_task")
    ∷ (not (contains card.state policy.eligible_states), "state_not_eligible")
    ∷ (not (contains "leaf-task" card.tags), "not_leaf_task")
    ∷ (any_of (λ tag. contains tag policy.excluded_labels) card.tags, "excluded_label")
    ∷ (
      not (is_enrolled card.enrollment_state),
      concat ("enrollment_" ∷ enrollment_text card.enrollment_state ∷ []),
    )
    ∷ (
      not (opt_eq card.enrollment_policy_version (some policy.enrollment_policy_version)),
      "enrollment_policy_mismatch",
    )
    ∷ (not (is_set card.execution_ready_attestation), "execution_ready_missing")
    ∷ (is_nil card.acceptance_criteria, "acceptance_missing")
    ∷ (not (is_single card.repo_ids), "repo_count_invalid")
    ∷ size_check card.size_values
    ∷ (not (knows_dependencies card), "dependency_unknown")
    ∷ (
      knows_dependencies card && not (all_of (dependency_done card) card.dependency_ids),
      "dependency_incomplete",
    )
    ∷ (
      not (gate_open card.human_gate_state),
      concat ("human_gate_" ∷ gate_text card.human_gate_state ∷ []),
    )
    ∷ (
      is_approved card.human_gate_state
          && (not (is_set card.approval_ref)
              || not (is_set card.approved_card_hash)
              || not (opt_eq card.approved_card_revision (some card.card_revision))),
      "approval_version_mismatch",
    )
    ∷ (is_set card.owner_principal_id, "already_owned")
    ∷ (not (is_clear card.lease_state), concat ("lease_" ∷ lease_text card.lease_state ∷ []))
    ∷ (is_set_naive card.lease_expires_at, "lease_timestamp_invalid")
    ∷ (is_set_after card.lease_expires_at as_of, "lease_active")
    ∷ (
      not (aware_at card.ready_at),
      missing_or card.ready_at "ready_time_missing" "ready_time_invalid",
    )
    ∷ (
      is_class ClassOfService.fixed_date card && not (aware_at card.fixed_date_at),
      missing_or card.fixed_date_at "fixed_date_missing" "fixed_date_invalid",
    )
    ∷ []

-- repo_id is not None and repo_id not in allowed
abbrev pub is_foreign : Option String → List String → Bool
is_foreign none allowed = false
is_foreign (some repo) allowed = not (contains repo allowed)

-- The conditions on the executor's capacity.
unfoldable pub capacity_checks : ℕ → WorkCandidate → Option AgentCapacity → List (Bool × String)
capacity_checks as_of card none = (true, "capacity_unknown") ∷ []
capacity_checks as_of card (some capacity) =
    let timed = is_aware capacity.observed_at && is_aware capacity.expires_at in
    (not (capacity.principal_id == card.target_executor_principal_id), "executor_mismatch")
    ∷ (not (is_service capacity.profile.profile_kind), "executor_profile_not_service")
    ∷ (
      not (is_healthy capacity.profile.profile_state),
      concat ("executor_profile_" ∷ truth_text capacity.profile.profile_state ∷ []),
    )
    ∷ (not (is_set capacity.profile.memory_principal_id), "executor_memory_unknown")
    ∷ (
      not (is_healthy capacity.capability_state),
      concat ("executor_capability_" ∷ truth_text capacity.capability_state ∷ []),
    )
    ∷ (not timed, "capacity_timestamp_invalid")
    ∷ (
      timed && (is_until capacity.expires_at as_of || is_after capacity.observed_at as_of),
      "capacity_stale",
    )
    ∷ (not capacity.lease_state_fresh, "capacity_lease_unknown")
    ∷ (
      not (
          leb capacity.active_wip (length capacity.active_card_ids)
          && leb (length capacity.active_card_ids) capacity.active_wip),
      "capacity_conflict",
    )
    ∷ (leb capacity.wip_limit capacity.active_wip, "wip_exhausted")
    ∷ (not (contains card.kind capacity.allowed_task_classes), "task_class_unauthorized")
    ∷ (is_foreign (only card.repo_ids) capacity.allowed_repo_ids, "repo_unauthorized")
    ∷ []

-- An expedite without an approval that still holds is downgraded.
abbrev pub approval_lapsed : Option Moment → ℕ → Bool
approval_lapsed none now = true
approval_lapsed (some m) now = not (is_aware m) || is_until m now

abbrev pub is_downgraded : ℕ → WorkCandidate → Bool
is_downgraded as_of card =
    is_class ClassOfService.expedite card
    && (not (is_set card.expedite_approval_ref)
        || approval_lapsed card.expedite_approval_expires_at as_of)

abbrev pub normalized : ℕ → WorkCandidate → ClassOfService
normalized as_of card =
    if is_downgraded as_of card then ClassOfService.standard else card.class_of_service

abbrev pub downgrade_warning : ℕ → WorkCandidate → Option CanonicalWarning
downgrade_warning as_of card =
    if is_downgraded as_of card
    then some (record { code = "expedite_downgraded"; card_id = some card.card_id })
    else none

-- -count
abbrev pub negated : ℕ → ℤ
negated zero = pos zero
negated (suc n) = negsuc n

unfoldable pub reasons_against :
    PortfolioPolicy → ℕ → WorkCandidate → Option AgentCapacity → List String
reasons_against policy as_of card capacity =
    sort_set (raised (card_checks policy as_of card ++ capacity_checks as_of card capacity))

module _ (local_zone : ℕ → Result ℕ) where
  abbrev pub utc_text : Moment → Result String
  utc_text (Moment.aware t) = iso_text t
  utc_text (Moment.naive t) = do t ← local_zone t; iso_text t

  abbrev pub fixed_text : Option Moment → Result String
  fixed_text none = ok "9999-12-31T23:59:59+00:00"
  fixed_text (some m) = utc_text m

  unfoldable pub ranking_key : PortfolioPolicy → ℕ → WorkCandidate → Moment → Result RankingKey
  ranking_key policy as_of card ready = do
    fixed_date ← fixed_text card.fixed_date_at
    class_index ← index_of (same_service (normalized as_of card)) policy.class_order
    ready_text ← utc_text ready
    priority_index ← index_of (same_priority card.priority) policy.priority_order
    ok (
      get_or card.human_order (2 ^ 31 - 1),
      (
        class_index,
        (
          negated card.downstream_unlock_count,
          (fixed_date, (ready_text, (priority_index, card.card_id))),
        ),
      ),
    )

  -- The key where there is no reason against the card and it has a time.
  unfoldable pub key_unless :
      PortfolioPolicy → ℕ → WorkCandidate → List String → Option Moment → Result (Option RankingKey)
  key_unless policy as_of card (reason ∷ reasons) ready = ok none
  key_unless policy as_of card [] none = ok none
  key_unless policy as_of card [] (some ready) = do
    key ← ranking_key policy as_of card ready
    ok (some key)

  unfoldable pub candidate_decision :
      PortfolioPolicy
      → ℕ
      → WorkCandidate
      → Option AgentCapacity
      → Result (EligibilityDecision × Option CanonicalWarning)
  candidate_decision policy as_of card capacity = do
    let reasons = reasons_against policy as_of card capacity
    key ← key_unless policy as_of card reasons card.ready_at
    let decision : EligibilityDecision = record {
      card_id = card.card_id;
      eligible = is_nil reasons;
      reason_codes = reasons;
      normalized_class = normalized as_of card;
      ranking_key = key;
    }
    ok (decision, downgrade_warning as_of card)
