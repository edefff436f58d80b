-- ===== src/Portfolio/Entries.antt =====
-- src/skcoord/portfolio.py: the recommended and the excluded cards of a plan, from its decisions.
use skcoord.Prelude.{
  ℕ, String, ◌≡◌, refl, sym, ap, subst, ◌∙◌, inl, inr, true, false, not, Option, some, List, [],
  ◌∷◌, map, keep_if, All, All-mono, All-map, All-keep_if, look_up, ordered_text, ordered_tuple,
  ordered_number, ordered_integer, ordered_option, sort_by, sort_by-All, sort_by-IsSorted,
  sort_by-is_unique, is_unique, is_lt, IsAscending, IsSorted, map-IsAscending, keep_if-IsAscending,
  ascending-is_unique, ok, each,
}
use skcoord.Portfolio.Model.{
  PortfolioPolicy, AgentCapacity, WorkCandidate, RankingKey, EligibilityDecision, RankedCandidate,
  CandidateExclusion, CanonicalWarning,
}
use skcoord.Portfolio.Contracts.{new_exclusion}
use skcoord.Portfolio.Evaluate.{Decided, decisions_in}
use skcoord.Portfolio.Demands.{IsNormal, new_exclusion-ok}
use skcoord.Portfolio.Decide.{Outcome}
use skcoord.Portfolio.Along.{Along, each-ok, keep_if-All}
use skcoord.Portfolio.Rank.{IsRecommended}

-- Ranked cards whose keys, as the sort compared them, are in order, have their keys in order.
pub keys-IsSorted :
    (rs : List RankedCandidate)
    → IsSorted (λ k. k) (map (λ r. some r.ranking_key) rs)
    → IsSorted (λ k. k) (map (λ r. r.ranking_key) rs)
keys-IsSorted [] sorted = tt
keys-IsSorted (r ∷ rs) (first, sorted) = (strip rs first, keys-IsSorted rs sorted)
  where
    strip :
        (l : List RankedCandidate)
        → All
            (λ k. is_lt (ordered_option.compared k (some r.ranking_key)) ≡ false)
            (map (λ r. some r.ranking_key) l)
        → All
            (λ k. is_lt (ordered_tuple.compared k r.ranking_key) ≡ false)
            (map (λ r. r.ranking_key) l)
    strip [] all = tt
    strip (x ∷ l) (h, all) = (h, strip l all)

module _ (nfc : String → String) (policy : PortfolioPolicy) (as_of : ℕ)
    (capacities : List (String × AgentCapacity)) (cards : List (String × WorkCandidate))
    (reasons : List String) where
  -- What is known of a decision: the card it is on, with its id in normal form, and its outcome.
  abbrev pub Known : Decided → Type 0
  Known d =
      (c : WorkCandidate) × ((nfc c.card_id ≡ c.card_id)
        × (reasons ≡ [] → look_up c.card_id cards ≡ some c))
      × Outcome nfc policy as_of capacities reasons c d

  -- An eligible decision is on a card that it finds by its id, with a key.
  chosen :
      (d : Decided)
      → d.0.eligible ≡ true
      → Known d
      → IsRecommended policy as_of capacities cards d.0.card_id
        × ((key : RankingKey) × (d.0.ranking_key ≡ some key))
  chosen d eligible (c, (plain, found), o) = elim o.verdict [
    | inl out ↦ absurd (differ (sym eligible ∙ out))
    | inr (_, clean, keyed, good) ↦
        ((c, ap (λ id. look_up id cards) o.same_id ∙ found clean, good), keyed)
  ]
    where
      differ : true ≡ false → ⊥
      differ h = cc

  -- The decisions, without their warnings.
  abbrev pub KnownDecision : EligibilityDecision → Type 0
  KnownDecision d = (w : Option CanonicalWarning) × Known (d, w)

  pub to_decisions : (l : List Decided) → All Known l → All KnownDecision (decisions_in l)
  to_decisions [] all = tt
  to_decisions ((d, w) ∷ l) (h, all) = ((w, h), to_decisions l all)

  unfoldable pub eligible_decisions : List Decided → List EligibilityDecision
  eligible_decisions l = sort_by (λ d. d.ranking_key) (keep_if (λ d. d.eligible) (decisions_in l))

  pub eligible-All :
      (l : List Decided)
      → All Known l
      → All
          (λ d.
            IsRecommended policy as_of capacities cards d.card_id
            × ((key : RankingKey) × (d.ranking_key ≡ some key)))
          (eligible_decisions l)
  unfolding eligible_decisions
  eligible-All l all =
      sort_by-All (λ d. d.ranking_key) _ _
        (All-mono (λ d both. chosen (d, both.1.0) both.0 both.1.1) _
          (keep_if-All KnownDecision (λ d. d.eligible) (decisions_in l) (to_decisions l all)))

  unfoldable pub excluded_decisions : List Decided → List EligibilityDecision
  excluded_decisions l = keep_if (λ d. not d.eligible) (decisions_in l)

  -- An exclusion is its decision's id and reasons.
  abbrev pub Copies : EligibilityDecision → CandidateExclusion → Type 0
  Copies d e = (e.card_id ≡ d.card_id) × (e.reason_codes ≡ d.reason_codes)

  pub exclusions_made :
      (l : List Decided)
      → All Known l
      → (es : List CandidateExclusion) × (each
            (λ d. new_exclusion nfc d.card_id d.reason_codes)
            (excluded_decisions l)
          ≡ ok es)
        × Along Copies (excluded_decisions l) es
  unfolding excluded_decisions
  exclusions_made l all =
      each-ok (λ d. new_exclusion nfc d.card_id d.reason_codes) Copies _
        (All-mono
          (λ d known. (
            record { card_id = d.card_id; reason_codes = d.reason_codes },
            new_exclusion-ok nfc d.card_id d.reason_codes known.1.2.normal known.1.2.in_order,
            (refl, refl),
          ))
          _ (All-keep_if KnownDecision (λ d. not d.eligible) (decisions_in l) (to_decisions l all)))

  pub decisions-IsAscending :
      (l : List Decided)
      → IsAscending (λ d. d.0.card_id) l
      → IsAscending (λ d. d.card_id) (decisions_in l)
  decisions-IsAscending [] up = tt
  decisions-IsAscending (d ∷ l) (first, up) =
      (All-map _ (λ e. e.0) l first, decisions-IsAscending l up)

  -- The excluded ids are in strict order and in normal form.
  module _ (l : List Decided) (all : All Known l) (up : IsAscending (λ d. d.0.card_id) l) where
    pub excluded-IsAscending : IsAscending (λ s. s) (map (λ d. d.card_id) (excluded_decisions l))
    unfolding excluded_decisions
    excluded-IsAscending =
        map-IsAscending (λ d. d.card_id) _
          (keep_if-IsAscending (λ d. d.card_id) (λ d. not d.eligible) _
            (decisions-IsAscending l up))

    pub excluded-All : All (IsNormal nfc) (map (λ d. d.card_id) (excluded_decisions l))
    unfolding excluded_decisions
    excluded-All =
        All-map (IsNormal nfc) (λ d. d.card_id) _
          (All-keep_if _ (λ d. not d.eligible) _
            (All-mono (λ d known. subst (IsNormal nfc) (sym known.1.2.same_id) known.1.1.0)
              (decisions_in l) (to_decisions l all)))

    -- No id is recommended twice.
    pub eligible_once : is_unique (map (λ d. d.card_id) (eligible_decisions l)) ≡ true
    unfolding eligible_decisions
    eligible_once =
        sort_by-is_unique (λ d. d.ranking_key) (λ d. d.card_id)
          (keep_if (λ d. d.eligible) (decisions_in l))
          (ascending-is_unique _ (
            map-IsAscending (λ d. d.card_id) _
              (keep_if-IsAscending (λ d. d.card_id) (λ d. d.eligible) _
                (decisions-IsAscending l up))))

  pub eligible-IsSorted : (l : List Decided) → IsSorted (λ d. d.ranking_key) (eligible_decisions l)
  unfolding eligible_decisions
  eligible-IsSorted l = sort_by-IsSorted (λ d. d.ranking_key) _
