-- ===== src/Portfolio/Rank.antt =====
-- src/skcoord/portfolio.py: the ranked cards are the eligible decisions, in order, numbered from 1.
use skcoord.Prelude.{
  ℕ, suc, String, ◌≡◌, refl, sym, subst, ap, ◌∙◌, some, List, [], ◌∷◌, map, All, look_up, ok,
  ordered_option, ordered_tuple, ordered_text, ordered_number, ordered_integer,
}
use skcoord.Portfolio.Model.{
  PortfolioPolicy, AgentCapacity, WorkCandidate, RankingKey, EligibilityDecision, RankedCandidate,
}
use skcoord.Portfolio.Contracts.{range_along}
use skcoord.Portfolio.Evaluate.{rank_one, rank_card, ranked_candidate, rank_from}
use skcoord.Portfolio.Eligible.{IsEligible}

-- A card of that id that is eligible, with an executor for it.
abbrev pub IsRecommended :
    PortfolioPolicy
    → ℕ
    → List (String × AgentCapacity)
    → List (String × WorkCandidate)
    → String
    → Type 0
IsRecommended policy as_of capacities cards id =
    (card : WorkCandidate) × (look_up id cards ≡ some card)
    × IsEligible policy as_of card (look_up card.target_executor_principal_id capacities)

module _ (policy : PortfolioPolicy) (as_of : ℕ) (capacities : List (String × AgentCapacity))
    (cards : List (String × WorkCandidate)) where
  record IsRanked (index : ℕ) (d : EligibilityDecision) (r : RankedCandidate) : Type 0 where
    same_id : r.card_id ≡ d.card_id
    same_key : some r.ranking_key ≡ d.ranking_key
    numbered : r.rank ≡ index

  rank_one-ok :
      (index : ℕ) (d : EligibilityDecision)
      → IsRecommended policy as_of capacities cards d.card_id
      → (key : RankingKey) × (d.ranking_key ≡ some key)
      → (r : RankedCandidate) × (rank_one cards index d ≡ ok r) × IsRanked index d r
  unfolding rank_one rank_card ranked_candidate
  rank_one-ok index d (card, found, e) (key, keyed) = (
    record {
      card_id = d.card_id;
      rank = index;
      repo_id = e.repo;
      executor_principal_id = card.target_executor_principal_id;
      class_of_service = d.normalized_class;
      ranking_key = key;
    },
    ap (rank_card index d) found
        ∙ ap (λ repos. ranked_candidate index d card repos d.ranking_key) e.one_repo
        ∙ ap (ranked_candidate index d card (e.repo ∷ [])) keyed,
    record { same_id = refl; same_key = sym keyed; numbered = refl },
  )

  pub record AreRanked (index : ℕ) (l : List EligibilityDecision) (rs : List RankedCandidate)
      : Type 0 where
    pub same_ids : map (λ r. r.card_id) rs ≡ map (λ d. d.card_id) l
    pub same_keys : map (λ r. some r.ranking_key) rs ≡ map (λ d. d.ranking_key) l
    pub in_turn : map (λ r. r.rank) rs ≡ range_along index rs
    pub recommended : All (λ r. IsRecommended policy as_of capacities cards r.card_id) rs

  pub rank_from-ok :
      (index : ℕ) (l : List EligibilityDecision)
      → All
          (λ d.
            IsRecommended policy as_of capacities cards d.card_id
            × ((key : RankingKey) × (d.ranking_key ≡ some key)))
          l
      → (rs : List RankedCandidate) × (rank_from cards index l ≡ ok rs) × AreRanked index l rs
  unfolding rank_from range_along
  rank_from-ok index [] all =
      ([], refl, record { same_ids = refl; same_keys = refl; in_turn = refl; recommended = tt })
  rank_from-ok index (d ∷ l) ((good, keyed), all) =
      let (r, first, ranked) = rank_one-ok index d good keyed in
      let (rs, rest, are) = rank_from-ok (suc index) l all in
      (
        r ∷ rs,
        rw (first, rest) refl,
        record {
          same_ids = λ i. ranked.same_id i ∷ are.same_ids i;
          same_keys = λ i. ranked.same_key i ∷ are.same_keys i;
          in_turn = λ i. ranked.numbered i ∷ are.in_turn i;
          recommended = (
            subst (IsRecommended policy as_of capacities cards) (sym ranked.same_id) good,
            are.recommended,
          );
        },
      )
