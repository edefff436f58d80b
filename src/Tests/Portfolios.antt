-- ===== src/Tests/Portfolios.antt =====
-- Portfolios: the theorems on src/skcoord/portfolio.py at concrete inputs.
use mathlib.Core.List.{Permᴰ}
use skcoord.Prelude.{
  ℕ, ◌+◌, ◌-◌, ◌*◌, String, ◌≡◌, ◌↔◌, refl, true, false, Option, none, some, List, [], ◌∷◌, map,
  concat, Result, ok, err, Error, same_list, sort_by, insert_by, is_unique, holds, once_each, each,
  put, look_up, ordered_text,
}
use skcoord.Portfolio.IsoFormat.{Moment, iso_text}
use skcoord.Portfolio.Model.{
  TruthState, Priority, ClassOfService, ProfileKind, Enrollment, LeaseState, GateState,
  PortfolioPolicy, PlanDataQuality, AgentCapacity, WorkCandidate, CanonicalSourceRef,
  PortfolioPlanContentV1,
}
use skcoord.Portfolio.Contracts.{
  is_sha256, hex_digits, services, priorities, is_order, require_sorted_unique, validate_orders,
  advisory_content_has_no_actions, new_abstention, new_content, new_exclusion, range_along,
}
use skcoord.Portfolio.Quality.{raised, quality_checks, global_quality_reasons}
use skcoord.Portfolio.Candidate.{
  candidate_decision, key_unless, reasons_against, card_checks, capacity_checks, index_of,
  ranking_key,
}
use skcoord.Portfolio.Evaluate.{
  evaluate_portfolio, ordered_candidates, decide, plan_reasons, assemble, by_id, rank_card,
  rank_from, rank_one, ranked_candidate, warnings_in,
}
use skcoord.Portfolio.Steward.{IsSafe, evaluate_portfolio-returns}
use skcoord.Portfolio.Deterministic.{evaluate_portfolio-perm}
use skcoord.Portfolio.Review.{
  ReviewAssignmentV1, ReviewDecisionV1, CompletionDecision, Verdict, evaluate_review_completion,
}
use skcoord.Portfolio.Reviewed.{IsReviewed}
use skcoord.Portfolio.Completes.{
  evaluate_review_completion-allowed, evaluate_review_completion-naive,
}

iso_text_first : iso_text 86400000000 ≡ ok "0001-01-01T00:00:00+00:00"
unfolding iso_text concat
iso_text_first = refl

-- 719162 days before 1970, and a leap day of 2024
iso_text_leap_day :
    iso_text ((719163 + 19782) * 86400000000 + 1500000) ≡ ok "2024-02-29T00:00:01.500000+00:00"
unfolding iso_text concat
iso_text_leap_day = refl

-- The last microsecond of the year 9999, and the next one, which a zone behind UTC reaches.
iso_text_last : iso_text (3652060 * 86400000000 - 1) ≡ ok "9999-12-31T23:59:59.999999+00:00"
unfolding iso_text concat
iso_text_last = refl

iso_text_overflow :
    iso_text (3652060 * 86400000000) ≡ err (Error.overflow_error "date value out of range")
unfolding iso_text
iso_text_overflow = refl

abbrev now : ℕ
now = 63800000000000000

abbrev before : Moment
before = Moment.aware 63799999999000000

abbrev later : Moment
later = Moment.aware 63800000001000000

abbrev kept_text : String → String
kept_text s = s

abbrev utc : ℕ → Result ℕ
utc t = ok t

abbrev desk_policy : PortfolioPolicy
desk_policy = record {
  policy_id = "portfolio";
  policy_version = "1";
  policy_hash = "aa";
  enrollment_policy_version = "1";
  snapshot_max_age_seconds = 60;
  eligible_states = "backlog" ∷ "ready" ∷ [];
  class_order = services;
  priority_order = priorities;
  excluded_labels = "do-not-claim" ∷ "staged" ∷ [];
}

abbrev desk_quality : PlanDataQuality
desk_quality = record {
  source_owner = "skcoord";
  snapshot_id = "s1";
  snapshot_hash = "bb";
  board_revision = "1";
  projection_revision = "1";
  parity_state = TruthState.healthy;
  read_state = TruthState.healthy;
  observed_at = before;
  expires_at = later;
}

abbrev desk_capacity : AgentCapacity
desk_capacity = record {
  principal_id = "lumina";
  profile = record {
    profile_id = "p";
    profile_kind = ProfileKind.service;
    profile_state = TruthState.healthy;
    selectable = false;
    fallback_eligible = false;
    memory_principal_id = some "m";
    default_tools = [];
    capability_policy_ref = none;
    profile_revision = "1";
    profile_hash = "cc";
  };
  allowed_task_classes = "task" ∷ [];
  allowed_repo_ids = "skcoord" ∷ [];
  wip_limit = 1;
  active_wip = 0;
  active_card_ids = [];
  lease_state_fresh = true;
  capability_state = TruthState.healthy;
  capacity_revision = "1";
  observed_at = before;
  expires_at = later;
}

abbrev leaf_card : String → Option String → WorkCandidate
leaf_card card_id owner = record {
  card_id = card_id;
  title = "A task";
  kind = "task";
  state = "ready";
  card_revision = "4";
  priority = Priority.high;
  class_of_service = ClassOfService.standard;
  human_order = none;
  enrollment_state = Enrollment.enrolled;
  enrollment_policy_version = some "1";
  tags = "leaf-task" ∷ [];
  dependency_ids = "a0" ∷ [];
  dependency_states = ("a0", "done") ∷ [];
  dependency_revisions = ("a0", "2") ∷ [];
  acceptance_criteria = "it works" ∷ [];
  repo_ids = "skcoord" ∷ [];
  size_values = "S" ∷ [];
  execution_ready_attestation = some "att";
  owner_principal_id = owner;
  lease_state = LeaseState.clear;
  lease_generation = 0;
  lease_expires_at = none;
  human_gate_state = GateState.not_required;
  approval_ref = none;
  approved_card_revision = none;
  approved_card_hash = none;
  target_executor_principal_id = "lumina";
  downstream_unlock_count = 2;
  ready_at = some before;
  fixed_date_at = none;
  expedite_approval_ref = none;
  expedite_approval_expires_at = none;
}

-- An owned card and one that is free.
abbrev two_cards : List WorkCandidate
two_cards = leaf_card "c2" (some "jarvis") ∷ leaf_card "c1" none ∷ []

abbrev one_ref : List CanonicalSourceRef
one_ref = record { source_id = "board"; source_revision = "1"; source_hash = "dd" } ∷ []

desk_policy-valid : validate_orders kept_text desk_policy ≡ ok tt
unfolding validate_orders is_order require_sorted_unique same_list sort_by insert_by is_unique holds
desk_policy-valid = refl

abbrev objective : String
objective = "e3b0c44298fc1c149afbf4c8996fb92427ae41e4649b934ca495991b7852b855"

objective-is_sha256 : is_sha256 objective ≡ true
unfolding is_sha256 hex_digits
objective-is_sha256 = refl

one_ref_once : is_unique (map (λ s. s.source_id) one_ref) ≡ true
unfolding is_unique holds
one_ref_once = refl

two_cards_once : is_unique (map (λ c. c.card_id) two_cards) ≡ true
unfolding is_unique holds
two_cards_once = refl

evaluate_portfolio-returns_example :
    (plan : PortfolioPlanContentV1) × (evaluate_portfolio kept_text utc two_cards
        (("lumina", desk_capacity) ∷ [])
        desk_quality
        desk_policy
        objective
        (Moment.aware now)
        one_ref
      ≡ ok plan)
    × IsSafe kept_text utc two_cards
        (("lumina", desk_capacity) ∷ [])
        desk_quality
        desk_policy
        objective
        now
        one_ref
        plan
evaluate_portfolio-returns_example =
    evaluate_portfolio-returns kept_text utc two_cards (("lumina", desk_capacity) ∷ []) desk_quality
      desk_policy objective now one_ref (λ s plain. refl) desk_policy-valid
      ((refl, refl), ((refl, refl), tt)) (refl, (refl, tt)) (refl, tt) one_ref_once
      objective-is_sha256

abbrev recommended_ids : Result PortfolioPlanContentV1 → List String
recommended_ids (err raised) = "raised" ∷ []
recommended_ids (ok plan) = map (λ r. r.card_id) plan.recommendations

-- The free card is recommended, and the owned one is not.
free_card_recommended :
    recommended_ids (
      evaluate_portfolio kept_text utc two_cards
        (("lumina", desk_capacity) ∷ [])
        desk_quality
        desk_policy
        objective
        (Moment.aware now)
        one_ref)
    ≡ "c1" ∷ []
unfolding is_sha256 hex_digits evaluate_portfolio each ordered_candidates is_unique holds sort_by
    insert_by decide plan_reasons global_quality_reasons once_each raised quality_checks
    candidate_decision key_unless reasons_against card_checks capacity_checks index_of ranking_key
    advisory_content_has_no_actions new_abstention new_content new_exclusion range_along
    require_sorted_unique assemble by_id rank_card rank_from rank_one ranked_candidate warnings_in
    iso_text look_up put same_list concat
free_card_recommended = refl

abbrev passing : ReviewDecisionV1
passing = record {
  assignment_id = "r1";
  artifact_hash = "hh";
  reviewer_principal_id = "opus";
  reviewer_capability = "code";
  verdict = Verdict.pass;
  findings_hash = "ff";
  evidence_refs = "e" ∷ [];
  decided_at = before;
  expires_at = later;
}

abbrev passing_review : Option ReviewDecisionV1
passing_review = some passing

abbrev assigned_at : Moment → ReviewAssignmentV1
assigned_at created = record {
  assignment_id = "r1";
  artifact_type = "plan";
  artifact_id = "p1";
  artifact_revision = "7";
  artifact_hash = "hh";
  author_principal_ids = "jarvis" ∷ [];
  disallowed_reviewer_principal_ids = [];
  required_reviewer_capability = "code";
  review_policy_id = "review";
  review_policy_version = "1";
  assigned_by_principal_id = "lumina";
  created_at = created;
  expires_at = later;
}

evaluate_review_completion-allowed_example :
    ((c : CompletionDecision) × (evaluate_review_completion
          (assigned_at before)
          passing_review
          "7"
          "hh"
          (Moment.aware now)
        ≡ ok c)
      × (c.allowed ≡ true))
    ↔ IsReviewed (assigned_at before) passing_review "7" "hh" now
evaluate_review_completion-allowed_example =
    evaluate_review_completion-allowed (assigned_at before) passing_review "7" "hh" now

evaluate_review_completion-naive_example :
    evaluate_review_completion
      (assigned_at (Moment.naive 5))
      (some passing)
      "7"
      "hh"
      (Moment.aware now)
    ≡ err (Error.type_error "can't compare offset-naive and offset-aware datetimes")
evaluate_review_completion-naive_example =
    evaluate_review_completion-naive (assigned_at (Moment.naive 5)) passing "7" "hh" now 5
      63799999999000000 63800000001000000 refl refl refl

evaluate_portfolio-perm_example :
    evaluate_portfolio kept_text utc two_cards
      (("lumina", desk_capacity) ∷ [])
      desk_quality
      desk_policy
      objective
      (Moment.aware now)
      one_ref
    ≡ evaluate_portfolio kept_text utc
        (leaf_card "c1" none ∷ leaf_card "c2" (some "jarvis") ∷ [])
        (("lumina", desk_capacity) ∷ [])
        desk_quality
        desk_policy
        objective
        (Moment.aware now)
        one_ref
evaluate_portfolio-perm_example =
    evaluate_portfolio-perm kept_text utc two_cards
      (leaf_card "c1" none ∷ leaf_card "c2" (some "jarvis") ∷ []) (("lumina", desk_capacity) ∷ [])
      desk_quality desk_policy objective (Moment.aware now) one_ref (Permᴰ.swap refl refl)
      two_cards_once
