-- ===== src/Portfolio/Contracts.antt =====
-- src/skcoord/portfolio_contracts.py: what the validators of the records demand, which run whenever a
-- record is made. `nfc` is `unicodedata.normalize("NFC", text)`.
use Prim.Native.Char.{code}
use skcoord.Prelude.{
  ℕ, zero, suc, ◌||◌, String, Bool, true, false, not, ◌&&◌, Option, none, some, get_or, List, [],
  ◌∷◌, map, length, is_some, same_list, is_unique, sort_list, Result, ok, ◌>>◌, demand, leb,
  ordered_text, ordered_number, ordered_tuple, ordered_integer, any_of, all_of,
}
use skcoord.Portfolio.Model.{
  ClassOfService, Priority, same_service, same_priority, PortfolioPolicy, CandidateExclusion,
  CanonicalWarning, CanonicalAbstention, PlanStatus, PortfolioPlanContentV1,
}

-- not values, of a tuple
abbrev pub is_nil {ℓ} : {A : Type ℓ} → List A → Bool
is_nil [] = true
is_nil (x ∷ l) = false

-- Every one of the names, in an order that is as long as they are.
unfoldable pub is_order : {A : Type 0} → (A → A → Bool) → List A → List A → Bool
is_order same names order =
    leb (length order) (length names)
    && leb (length names) (length order)
    && all_of (λ name. any_of (same name) order) names
    && all_of (λ name. any_of (same name) names) order

abbrev pub services : List ClassOfService
services =
    ClassOfService.expedite ∷ ClassOfService.fixed_date ∷ ClassOfService.standard
    ∷ ClassOfService.intangible ∷ []

abbrev pub priorities : List Priority
priorities = Priority.critical ∷ Priority.high ∷ Priority.medium ∷ Priority.low ∷ []

abbrev pub is_hex_digit : ℕ → Bool
is_hex_digit c = (leb 48 c && leb c 57) || leb 97 c && leb c 102

unfoldable pub hex_digits : ℕ → String → Bool
hex_digits zero String.[] = true
hex_digits zero (String.◌∷◌ c s) = false
hex_digits (suc n) String.[] = false
hex_digits (suc n) (String.◌∷◌ c s) = is_hex_digit (code c) && hex_digits n s

-- Sha256: 64 lower-case hexadecimal digits
unfoldable pub is_sha256 : String → Bool
unfolding hex_digits
is_sha256 s = hex_digits 64 s

-- range(start, start + len(entries))
unfoldable pub range_along : {A : Type 0} → ℕ → List A → List ℕ
range_along start [] = []
range_along start (x ∷ l) = start ∷ range_along (suc start) l

abbrev pub agrees : PlanStatus → Option CanonicalAbstention → Bool
agrees PlanStatus.abstained abstention = is_some abstention
agrees PlanStatus.proposed abstention = not (is_some abstention)

-- (item.card_id or "", item.code)
abbrev pub warning_key : CanonicalWarning → String × String
warning_key w = (get_or w.card_id "", w.code)

module _ (nfc : String → String) where
  unfoldable pub require_sorted_unique : List String → String → Result (Unit {0})
  require_sorted_unique values message =
      demand
        (same_list (map nfc values) values
          && same_list (sort_list values) values
          && is_unique values)
        message

  unfoldable pub validate_orders : PortfolioPolicy → Result (Unit {0})
  validate_orders policy = do
    demand (is_order same_service services policy.class_order)
        "class_order must contain every class exactly once"
    demand (is_order same_priority priorities policy.priority_order)
        "priority_order must contain every priority exactly once"
    require_sorted_unique policy.eligible_states "eligible_states must be sorted and unique"
    require_sorted_unique policy.excluded_labels "excluded_labels must be sorted and unique"

  -- CandidateExclusion(...)
  unfoldable pub new_exclusion : String → List String → Result CandidateExclusion
  new_exclusion card_id reason_codes = do
    require_sorted_unique reason_codes "reason_codes must be sorted and unique"
    ok (record { card_id = card_id; reason_codes = reason_codes })

  -- CanonicalAbstention(...) where there are reasons, else None
  unfoldable pub new_abstention : List String → Result (Option CanonicalAbstention)
  new_abstention [] = ok none
  new_abstention (code ∷ codes) = do
    require_sorted_unique (code ∷ codes) "reason_codes must be sorted and unique"
    ok (some (record { reason_codes = code ∷ codes }))

  unfoldable pub advisory_content_has_no_actions : PortfolioPlanContentV1 → Result (Unit {0})
  advisory_content_has_no_actions plan = do
    demand (is_nil plan.claims && is_nil plan.mutations)
        "advisory plan content cannot contain claims or mutations"
    demand (agrees plan.status plan.abstention)
        "abstained status and abstention evidence must agree"
    let keys = map (λ r. r.ranking_key) plan.recommendations
    demand (same_list keys (sort_list keys))
        "recommendations must be in deterministic ranking order"
    demand
        (same_list (map (λ r. r.rank) plan.recommendations) (range_along 1 plan.recommendations)
          && is_unique (map (λ r. r.card_id) plan.recommendations))
        "recommendation ranks and card ids must be unique"
    require_sorted_unique (map (λ e. e.card_id) plan.exclusions)
        "exclusion card ids must be sorted and unique"
    let warned = map warning_key plan.warnings
    demand (same_list warned (sort_list warned) && is_unique warned)
        "warnings must be sorted and unique"
    require_sorted_unique (map (λ s. s.source_id) plan.source_refs)
        "source refs must be sorted and unique"

  -- PortfolioPlanContentV1(...): the other two hashes come from records that have been validated.
  unfoldable pub new_content : PortfolioPlanContentV1 → Result PortfolioPlanContentV1
  new_content plan = do
    demand (is_sha256 plan.objective_hash) "objective_hash should match pattern"
    advisory_content_has_no_actions plan
    ok plan
