-- ===== src/Portfolio/Steward.antt =====
-- src/skcoord/portfolio.py: `evaluate_portfolio` returns a plan that its contract accepts.
use skcoord.Prelude.{
  Result, ℕ, String, ◌≡◌, refl, sym, ap, subst, ◌∙◌, ◌⊎◌, true, Option, List, [], map, All,
  All-mono, All-map, ordered_text, ordered_tuple, ordered_number, ordered_integer, ordered_option,
  sort_by, sort_by-All, sort_by-IsAscending, sort_by_sorted, is_unique, IsAscending, IsSorted,
  map-IsAscending, map-IsSorted, unmap-IsAscending, ascending-IsSorted, ok,
}
use skcoord.Portfolio.IsoFormat.{Moment}
use skcoord.Portfolio.Model.{
  PortfolioPolicy, PlanDataQuality, AgentCapacity, WorkCandidate, RankedCandidate,
  CandidateExclusion, CanonicalAbstention, CanonicalSourceRef, PortfolioPlanContentV1,
}
use skcoord.Portfolio.Contracts.{is_sha256, warning_key, validate_orders, agrees}
use skcoord.Portfolio.Evaluate.{
  Decided, by_id, plan_reasons, ordered_candidates, warnings_in, status_for, abstention_for, decide,
  assemble, plan_content, evaluate_portfolio,
}
use skcoord.Portfolio.Demands.{IsNormal}
use skcoord.Portfolio.Reasons.{is_ascii}
use skcoord.Portfolio.Decide.{IsPlaced, IsWarned, Outcome, decide-Outcome}
use skcoord.Portfolio.Along.{Along, each-ok, Along-All, Along-map, All-both}
use skcoord.Portfolio.Rank.{IsRecommended, AreRanked, rank_from-ok}
use skcoord.Portfolio.PlanReasons.{reasons-IsAscending, reasons-IsAscii, candidates_found}
use skcoord.Portfolio.Entries.{
  Known, Copies, keys-IsSorted, eligible_decisions, eligible-All, excluded_decisions,
  exclusions_made, excluded-IsAscending, excluded-All, eligible_once, eligible-IsSorted,
}
use skcoord.Portfolio.Accepted.{IsOrderly, new_content-ok}
use skcoord.Portfolio.Returns.{abstention_made, abstention_up, none_ranked}
use skcoord.Portfolio.Orderly.{
  ordered_candidates-IsAscending, ordered_candidates-All, warnings_in-IsAscending,
}

module _ (nfc : String → String) (local_zone : ℕ → Result ℕ) (candidates : List WorkCandidate)
    (capacities : List (String × AgentCapacity)) (quality : PlanDataQuality)
    (policy : PortfolioPolicy) (objective_hash : String) (as_of : ℕ)
    (refs : List CanonicalSourceRef) where
  abbrev pub reasons : List String
  reasons = plan_reasons quality policy as_of candidates

  -- What holds of the plan that is returned.
  abbrev pub IsSafe : PortfolioPlanContentV1 → Type 0
  IsSafe plan =
      IsOrderly nfc plan
      × All (λ r. IsRecommended policy as_of capacities (by_id [] candidates) r.card_id)
          plan.recommendations
      × ((reasons ≡ []) ⊎ (plan.recommendations ≡ []))

  module _ (ascii : (s : String) → is_ascii s ≡ true → nfc s ≡ s)
      (refs_normal : All (λ s. nfc s.source_id ≡ s.source_id) refs)
      (refs_once : is_unique (map (λ s. s.source_id) refs) ≡ true)
      (hash_holds : is_sha256 objective_hash ≡ true) (l : List Decided)
      (all : All (Known nfc policy as_of capacities (by_id [] candidates) reasons) l)
      (up : IsAscending (λ d. d.0.card_id) l) where
    orderly :
        (rs : List RankedCandidate) (es : List CandidateExclusion)
        (abstention : Option CanonicalAbstention)
        → AreRanked policy as_of capacities
            (by_id [] candidates)
            1
            (eligible_decisions nfc policy as_of capacities (by_id [] candidates) reasons l)
            rs
        → Along
            (Copies nfc policy as_of capacities (by_id [] candidates) reasons)
            (excluded_decisions nfc policy as_of capacities (by_id [] candidates) reasons l)
            es
        → agrees (status_for (abstention_for reasons rs)) abstention ≡ true
        → IsOrderly nfc (
            plan_content quality policy objective_hash refs l rs es
              (abstention_for reasons rs)
              abstention)
    orderly rs es abstention are copies agree = record {
      hashed = hash_holds;
      no_claims = refl;
      no_mutations = refl;
      agreed = agree;
      keys_in_order = keys-IsSorted rs (
          subst (IsSorted (λ k. k)) (sym are.same_keys) (
            map-IsSorted (λ d. d.ranking_key) _
              (eligible-IsSorted nfc policy as_of capacities (by_id [] candidates) reasons l)));
      in_turn = are.in_turn;
      once =
          ap is_unique are.same_ids
          ∙ eligible_once nfc policy as_of capacities (by_id [] candidates) reasons l all up;
      exclusions_normal =
          subst (All (IsNormal nfc)) (sym same_excluded)
            (excluded-All nfc policy as_of capacities (by_id [] candidates) reasons l all up);
      exclusions_up =
          subst (IsAscending (λ s. s)) (sym same_excluded) (
            excluded-IsAscending nfc policy as_of capacities (by_id [] candidates) reasons l all
              up);
      warnings_up =
          subst (λ ws. IsAscending (λ k. k) (map warning_key ws)) (sym warnings_stay)
            (map-IsAscending warning_key (warnings_in l) warnings_ascend);
      refs_normal =
          All-map (IsNormal nfc) (λ s. s.source_id) _
            (sort_by-All (λ s. s.source_id) (λ s. nfc s.source_id ≡ s.source_id) refs refs_normal);
      refs_up =
          map-IsAscending (λ s. s.source_id) _
            (sort_by-IsAscending (λ s. s.source_id) refs refs_once);
    }
      where
        same_excluded :
            map (λ e. e.card_id) es
            ≡ map
                (λ d. d.card_id)
                (excluded_decisions nfc policy as_of capacities (by_id [] candidates) reasons l)
        same_excluded =
            Along-map (Copies nfc policy as_of capacities (by_id [] candidates) reasons)
              (λ d. d.card_id) (λ e. e.card_id)
              (excluded_decisions nfc policy as_of capacities (by_id [] candidates) reasons l) es
              (λ d e both. both.0) copies

        warnings_ascend : IsAscending warning_key (warnings_in l)
        warnings_ascend = warnings_in-IsAscending l (All-mono warned_for l all) up
          where
            warned_for :
                (d : Decided)
                → Known nfc policy as_of capacities (by_id [] candidates) reasons d
                → IsWarned d.0.card_id d.1
            warned_for d (c, plain, o) = subst (λ id. IsWarned id d.1) (sym o.same_id) o.warned

        warnings_stay : sort_by warning_key (warnings_in l) ≡ warnings_in l
        warnings_stay =
            sort_by_sorted warning_key (warnings_in l)
              (ascending-IsSorted warning_key (warnings_in l) warnings_ascend)

    assembled :
        (plan : PortfolioPlanContentV1) × (assemble nfc local_zone candidates quality policy
            objective_hash refs reasons l
          ≡ ok plan)
        × IsSafe plan
    unfolding assemble eligible_decisions excluded_decisions
    assembled =
        let (rs, ranked, are) =
          rank_from-ok policy as_of capacities (by_id [] candidates) 1 _
            (eligible-All nfc policy as_of capacities (by_id [] candidates) reasons l all) in
        let (es, made, copies) =
          exclusions_made nfc policy as_of capacities (by_id [] candidates) reasons l all in
        let (abstain_up, abstain_plain) =
          abstention_up reasons rs (reasons-IsAscending quality policy as_of candidates)
            (reasons-IsAscii quality policy as_of candidates) in
        let (abstention, abstains, agree) =
          abstention_made nfc ascii (abstention_for reasons rs) abstain_up abstain_plain in
        (
          plan_content quality policy objective_hash refs l rs es (abstention_for reasons rs)
              abstention,
          rw (ranked, made, abstains)
              (new_content-ok nfc _ (orderly rs es abstention are copies agree)),
          (
            orderly rs es abstention are copies agree,
            are.recommended,
            none_ranked nfc policy as_of capacities (by_id [] candidates) reasons l rs are all,
          ),
        )

-- Where each candidate's two dates, those that it has, are in the years 1 to 9999 by UTC, under a valid
-- policy and at a time with a time zone a plan is returned, and its validator accepts it: its ranks count
-- from 1 in the order of the keys, no card stands twice, and what is excluded, warned of and referred to
-- is in strict order. Every recommended card is one of the candidates, with an executor: it fails none of
-- the conditions on a card, on its dependencies, gate, lease and dates, or on its executor's capacity,
-- which `IsEligible` and `IsFree` list. Where there is a reason against the whole plan no card is
-- recommended. This supposes that NFC leaves ASCII texts and the given ids alone, that no source stands
-- twice, and that the objective's hash has the form of a hash.
pub evaluate_portfolio-returns :
    (nfc : String → String) (local_zone : ℕ → Result ℕ) (candidates : List WorkCandidate)
    (capacities : List (String × AgentCapacity)) (quality : PlanDataQuality)
    (policy : PortfolioPolicy) (objective_hash : String) (as_of : ℕ)
    (refs : List CanonicalSourceRef)
    → ((s : String) → is_ascii s ≡ true → nfc s ≡ s)
    → validate_orders nfc policy ≡ ok tt
    → All (IsPlaced local_zone) candidates
    → All (λ c. nfc c.card_id ≡ c.card_id) candidates
    → All (λ s. nfc s.source_id ≡ s.source_id) refs
    → is_unique (map (λ s. s.source_id) refs) ≡ true
    → is_sha256 objective_hash ≡ true
    → (plan : PortfolioPlanContentV1) × (evaluate_portfolio nfc local_zone candidates capacities
          quality policy objective_hash
          (Moment.aware as_of)
          refs
        ≡ ok plan)
      × IsSafe nfc local_zone candidates capacities quality policy objective_hash as_of refs plan
unfolding evaluate_portfolio
evaluate_portfolio-returns nfc local_zone candidates capacities quality policy objective_hash as_of
      refs ascii valid placed normal refs_normal refs_once hash_holds =
    let reasons = plan_reasons quality policy as_of candidates in
    let (l, decided, along) =
      each-ok (decide nfc local_zone capacities policy as_of reasons)
        (Outcome nfc policy as_of capacities reasons) (ordered_candidates candidates)
        (All-mono
          (decide-Outcome local_zone nfc ascii policy valid as_of capacities reasons
            (reasons-IsAscending quality policy as_of candidates)
            (reasons-IsAscii quality policy as_of candidates))
          (ordered_candidates candidates)
          (ordered_candidates-All candidates (IsPlaced local_zone) placed)) in
    let (plan, made, safe) =
      assembled nfc local_zone candidates capacities quality policy objective_hash as_of refs ascii
        refs_normal refs_once hash_holds l
        (Along-All _ _ (ordered_candidates candidates) l along (
          ordered_candidates-All candidates _
            (All-both _ _ candidates normal (candidates_found quality policy as_of candidates))))
        (unmap-IsAscending (λ d. d.0.card_id) l
          (subst (IsAscending (λ s. s))
            (sym (Along-map _ (λ c. c.card_id) (λ d. d.0.card_id) _ l (λ c d o. o.same_id) along))
            (ordered_candidates-IsAscending candidates))) in
    (plan, rw decided made, safe)
