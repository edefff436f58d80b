-- ===== src/Portfolio/Accepted.antt =====
-- src/skcoord/portfolio_contracts.py: a plan that its validator accepts.
use skcoord.Prelude.{
  String, ◌≡◌, refl, true, [], map, All, ordered_text, ordered_tuple, ordered_number,
  ordered_integer, ordered_option, sort_by_sorted, same_list_refl, is_unique, IsAscending, IsSorted,
  ascending-IsSorted, ascending-is_unique, ok,
}
use skcoord.Portfolio.Model.{PortfolioPlanContentV1}
use skcoord.Portfolio.Contracts.{
  is_sha256, range_along, warning_key, advisory_content_has_no_actions, new_content, agrees,
}
use skcoord.Portfolio.Demands.{IsNormal, require_sorted_unique-ok}

-- What the validator of a plan's content demands, as facts.
pub record IsOrderly (nfc : String → String) (plan : PortfolioPlanContentV1) : Type 0 where
  pub hashed : is_sha256 plan.objective_hash ≡ true
  pub no_claims : plan.claims ≡ []
  pub no_mutations : plan.mutations ≡ []
  pub agreed : agrees plan.status plan.abstention ≡ true
  pub keys_in_order : IsSorted (λ k. k) (map (λ r. r.ranking_key) plan.recommendations)
  pub in_turn : map (λ r. r.rank) plan.recommendations ≡ range_along 1 plan.recommendations
  pub once : is_unique (map (λ r. r.card_id) plan.recommendations) ≡ true
  pub exclusions_normal : All (IsNormal nfc) (map (λ e. e.card_id) plan.exclusions)
  pub exclusions_up : IsAscending (λ s. s) (map (λ e. e.card_id) plan.exclusions)
  pub warnings_up : IsAscending (λ k. k) (map warning_key plan.warnings)
  pub refs_normal : All (IsNormal nfc) (map (λ s. s.source_id) plan.source_refs)
  pub refs_up : IsAscending (λ s. s) (map (λ s. s.source_id) plan.source_refs)

module _ (nfc : String → String) (plan : PortfolioPlanContentV1) (o : IsOrderly nfc plan) where
  accepted : advisory_content_has_no_actions nfc plan ≡ ok tt
  unfolding advisory_content_has_no_actions
  accepted =
      rw
        (
          o.no_claims,
          o.no_mutations,
          o.agreed,
          sort_by_sorted (λ k. k) (map (λ r. r.ranking_key) plan.recommendations) o.keys_in_order,
          same_list_refl (map (λ r. r.ranking_key) plan.recommendations),
          o.in_turn,
          same_list_refl (range_along 1 plan.recommendations),
          o.once,
          require_sorted_unique-ok nfc (map (λ e. e.card_id) plan.exclusions)
              "exclusion card ids must be sorted and unique" o.exclusions_normal o.exclusions_up,
          sort_by_sorted (λ k. k) (map warning_key plan.warnings)
              (ascending-IsSorted (λ k. k) (map warning_key plan.warnings) o.warnings_up),
          same_list_refl (map warning_key plan.warnings),
          ascending-is_unique (map warning_key plan.warnings) o.warnings_up,
          require_sorted_unique-ok nfc (map (λ s. s.source_id) plan.source_refs)
              "source refs must be sorted and unique" o.refs_normal o.refs_up,
        )
        refl

  pub new_content-ok : new_content nfc plan ≡ ok plan
  unfolding new_content
  new_content-ok = rw (o.hashed, accepted) refl
