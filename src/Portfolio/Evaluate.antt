-- ===== src/Portfolio/Evaluate.antt =====
-- src/skcoord/portfolio.py: `evaluate_portfolio`.
use skcoord.Prelude.{
  ℕ, suc, String, false, Option, none, some, List, [], ◌∷◌, map, keep_if, put, look_up, sort_by,
  sort_set, is_unique, ordered_text, ordered_option, ordered_tuple, ordered_number, ordered_integer,
  Result, Error, err, ok, ◌>>=◌, each, not, if◌then◌else◌,
}
use skcoord.Portfolio.IsoFormat.{Moment}
use skcoord.Portfolio.Model.{
  PortfolioPolicy, PlanDataQuality, AgentCapacity, WorkCandidate, EligibilityDecision, RankingKey,
  RankedCandidate, CandidateExclusion, CanonicalWarning, CanonicalAbstention, CanonicalSourceRef,
  PlanStatus, PortfolioPlanContentV1,
}
use skcoord.Portfolio.Contracts.{new_exclusion, new_abstention, new_content, warning_key}
use skcoord.Portfolio.Quality.{global_quality_reasons}
use skcoord.Portfolio.Candidate.{candidate_decision}

abbrev pub Decided : Type 0
Decided = EligibilityDecision × Option CanonicalWarning

-- {card.card_id: card for card in cards}
unfoldable pub by_id :
    List (String × WorkCandidate) → List WorkCandidate → List (String × WorkCandidate)
by_id found [] = found
by_id found (c ∷ cards) = by_id (put c.card_id c found) cards

unfoldable pub plan_reasons :
    PlanDataQuality → PortfolioPolicy → ℕ → List WorkCandidate → List String
plan_reasons quality policy as_of candidates =
    let reasons = global_quality_reasons quality policy as_of in
    if is_unique (map (λ c. c.card_id) candidates)
    then reasons
    else sort_set ("duplicate_card_id" ∷ reasons)

-- By their ids, and the last one of each id where an id stands twice.
unfoldable pub ordered_candidates : List WorkCandidate → List WorkCandidate
ordered_candidates candidates =
    let sorted = sort_by (λ c. c.card_id) candidates in
    if is_unique (map (λ c. c.card_id) candidates) then sorted else map (λ e. e.1) (by_id [] sorted)

-- The decision against a card where the plan itself has reasons.
abbrev pub excluded : List String → WorkCandidate → Decided
excluded reasons card = (
  record {
    card_id = card.card_id;
    eligible = false;
    reason_codes = reasons;
    normalized_class = card.class_of_service;
    ranking_key = none;
  },
  none,
)

unfoldable pub warnings_in : List Decided → List CanonicalWarning
warnings_in [] = []
warnings_in ((decision, none) ∷ l) = warnings_in l
warnings_in ((decision, some warning) ∷ l) = warning ∷ warnings_in l

-- RankedCandidate(...) of a decision, with the card's first repository and its executor.
unfoldable pub ranked_candidate :
    ℕ
    → EligibilityDecision
    → WorkCandidate
    → List String
    → Option RankingKey
    → Result RankedCandidate
ranked_candidate index decision card [] key = err (Error.value_error "tuple index out of range")
ranked_candidate index decision card (repo ∷ repos) none =
    err (Error.value_error "ranking_key is not a tuple of seven")
ranked_candidate index decision card (repo ∷ repos) (some key) = ok (record {
  card_id = decision.card_id;
  rank = index;
  repo_id = repo;
  executor_principal_id = card.target_executor_principal_id;
  class_of_service = decision.normalized_class;
  ranking_key = key;
})

-- cards_by_id[decision.card_id]
unfoldable pub rank_card : ℕ → EligibilityDecision → Option WorkCandidate → Result RankedCandidate
rank_card index decision none = err (Error.key_error decision.card_id)
rank_card index decision (some card) =
    ranked_candidate index decision card card.repo_ids decision.ranking_key

unfoldable pub rank_one :
    List (String × WorkCandidate) → ℕ → EligibilityDecision → Result RankedCandidate
rank_one cards index decision = rank_card index decision (look_up decision.card_id cards)

-- enumerate(eligible, start=index)
unfoldable pub rank_from :
    List (String × WorkCandidate) → ℕ → List EligibilityDecision → Result (List RankedCandidate)
rank_from cards index [] = ok []
rank_from cards index (decision ∷ l) = do
  first ← rank_one cards index decision
  rest ← rank_from cards (suc index) l
  ok (first ∷ rest)

abbrev pub status_for : List String → PlanStatus
status_for [] = PlanStatus.proposed
status_for (code ∷ codes) = PlanStatus.abstained

-- Why there is no plan: the plan's own reasons, or that no card is eligible.
abbrev pub abstention_for : List String → List RankedCandidate → List String
abstention_for [] [] = "no_eligible_candidates" ∷ []
abstention_for [] (r ∷ ranked) = []
abstention_for (code ∷ codes) ranked = code ∷ codes

abbrev pub decisions_in : List Decided → List EligibilityDecision
decisions_in = map (λ d. d.0)

-- The plan's fields.
abbrev pub plan_content :
    PlanDataQuality
    → PortfolioPolicy
    → String
    → List CanonicalSourceRef
    → List Decided
    → List RankedCandidate
    → List CandidateExclusion
    → List String
    → Option CanonicalAbstention
    → PortfolioPlanContentV1
plan_content quality policy objective_hash source_refs decided ranked exclusions abstained
      abstention =
    record {
      status = status_for abstained;
      objective_hash = objective_hash;
      snapshot_id = quality.snapshot_id;
      snapshot_hash = quality.snapshot_hash;
      snapshot_expires_at = quality.expires_at;
      policy_id = policy.policy_id;
      policy_version = policy.policy_version;
      policy_hash = policy.policy_hash;
      recommendations = ranked;
      exclusions = exclusions;
      warnings = sort_by warning_key (warnings_in decided);
      abstention = abstention;
      source_refs = sort_by (λ s. s.source_id) source_refs;
      claims = [];
      mutations = [];
    }

module _ (nfc : String → String) (local_zone : ℕ → Result ℕ) where
  unfoldable pub decide :
      List (String × AgentCapacity)
      → PortfolioPolicy
      → ℕ
      → List String
      → WorkCandidate
      → Result Decided
  decide capacities policy as_of [] card =
      candidate_decision local_zone policy as_of card
        (look_up card.target_executor_principal_id capacities)
  decide capacities policy as_of (reason ∷ reasons) card = ok (excluded (reason ∷ reasons) card)

  -- The plan from the decisions.
  unfoldable pub assemble :
      List WorkCandidate
      → PlanDataQuality
      → PortfolioPolicy
      → String
      → List CanonicalSourceRef
      → List String
      → List Decided
      → Result PortfolioPlanContentV1
  assemble candidates quality policy objective_hash source_refs reasons decided = do
    let decisions = decisions_in decided
    let eligible = sort_by (λ d. d.ranking_key) (keep_if (λ d. d.eligible) decisions)
    ranked ← rank_from (by_id [] candidates) 1 eligible
    exclusions ←
        each (λ d. new_exclusion nfc d.card_id d.reason_codes)
          (keep_if (λ d. not d.eligible) decisions)
    let abstained = abstention_for reasons ranked
    abstention ← new_abstention nfc abstained
    new_content nfc (
        plan_content quality policy objective_hash source_refs decided ranked exclusions abstained
          abstention)

  unfoldable pub evaluate_portfolio :
      List WorkCandidate
      → List (String × AgentCapacity)
      → PlanDataQuality
      → PortfolioPolicy
      → String
      → Moment
      → List CanonicalSourceRef
      → Result PortfolioPlanContentV1
  evaluate_portfolio candidates capacities quality policy objective_hash (Moment.naive t) refs =
      err (Error.value_error "as_of must be timezone-aware")
  evaluate_portfolio candidates capacities quality policy objective_hash (Moment.aware t) refs = do
    let reasons = plan_reasons quality policy t candidates
    decided ← each (decide capacities policy t reasons) (ordered_candidates candidates)
    assemble candidates quality policy objective_hash refs reasons decided
