-- ===== src/Portfolio/PlanReasons.antt =====
-- src/skcoord/portfolio.py: the reasons against a whole plan, and its candidates by their ids.
use skcoord.Prelude.{
  ℕ, String, ◌≡◌, refl, inl, inr, some, List, [], ◌∷◌, map, All, All-mono, Bool-cases, look_up,
  ordered_text, ordered_tuple, ordered_number, ordered_integer, ordered_option, is_unique,
  IsAscending, sort_set-IsAscending,
}
use skcoord.Portfolio.Model.{PortfolioPolicy, PlanDataQuality, WorkCandidate}
use skcoord.Portfolio.Quality.{global_quality_reasons}
use skcoord.Portfolio.Evaluate.{by_id, plan_reasons}
use skcoord.Portfolio.Passed.{sort_set_none}
use skcoord.Portfolio.Reasons.{IsAscii, is_ascii, sort_set-IsAscii, global_quality_reasons-IsAscii}
use skcoord.Portfolio.Along.{All-always, found_by_id}

module _ (quality : PlanDataQuality) (policy : PortfolioPolicy) (as_of : ℕ)
    (candidates : List WorkCandidate) where
  pub reasons-IsAscending : IsAscending (λ s. s) (plan_reasons quality policy as_of candidates)
  unfolding plan_reasons global_quality_reasons
  reasons-IsAscending = elim (Bool-cases (is_unique (map (λ c. c.card_id) candidates))) [
    | inl once ↦ rw once (sort_set-IsAscending _)
    | inr twice ↦ rw twice (sort_set-IsAscending _)
  ]

  pub reasons-IsAscii : All IsAscii (plan_reasons quality policy as_of candidates)
  unfolding plan_reasons is_ascii
  reasons-IsAscii = elim (Bool-cases (is_unique (map (λ c. c.card_id) candidates))) [
    | inl once ↦ rw once (global_quality_reasons-IsAscii quality policy as_of)
    | inr twice ↦
        rw twice (sort_set-IsAscii _ (refl, global_quality_reasons-IsAscii quality policy as_of))
  ]

  -- Where the plan has no reason, each candidate is found by its id.
  pub candidates_found :
      All
        (λ c.
          plan_reasons quality policy as_of candidates ≡ []
          → look_up c.card_id (by_id [] candidates) ≡ some c)
        candidates
  unfolding plan_reasons
  candidates_found = elim (Bool-cases (is_unique (map (λ c. c.card_id) candidates))) [
    | inl once ↦ All-mono (λ c h _. h) candidates (found_by_id [] candidates once)
    | inr twice ↦
        rw twice (All-always _ (λ c none_left. never (sort_set_none _ none_left)) candidates)
  ]
    where
      never : {P : Type 0} {l : List String} → "duplicate_card_id" ∷ l ≡ [] → P
      never h = cc
