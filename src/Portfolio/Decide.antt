-- ===== src/Portfolio/Decide.antt =====
-- src/skcoord/portfolio.py: what the decision on one card is, where the policy is valid.
use skcoord.Prelude.{
  Result, ℕ, String, ◌≡◌, refl, subst, ordered_text, ◌⊎◌, inl, inr, true, false, Option, none, some,
  List, [], ◌∷◌, All, All-mono, IsAscending, look_up, ok, err, ◌>>=◌, Bool, Bool-cases,
}
use skcoord.Portfolio.IsoFormat.{Moment, is_in_range, iso_text, iso_text-ok}
use skcoord.Portfolio.Model.{
  PortfolioPolicy, AgentCapacity, WorkCandidate, RankingKey, EligibilityDecision, CanonicalWarning,
}
use skcoord.Portfolio.Contracts.{validate_orders}
use skcoord.Portfolio.Candidate.{
  utc_text, fixed_text, ranking_key, key_unless, reasons_against, candidate_decision, normalized,
  downgrade_warning, is_downgraded,
}
use skcoord.Portfolio.Evaluate.{Decided, decide, excluded}
use skcoord.Portfolio.Eligible.{IsEligible, reasons_against-IsEligible}
use skcoord.Portfolio.Demands.{IsNormal, class_index, priority_index}
use skcoord.Portfolio.Reasons.{
  IsAscii, is_ascii, reasons_against-IsAscii, reasons_against-IsAscending,
}

abbrev pub downgraded : String → CanonicalWarning
downgraded card_id = record { code = "expedite_downgraded"; card_id = some card_id }

-- A warning, if there is one, is that this card's class was lowered.
abbrev pub IsWarned : String → Option CanonicalWarning → Type 0
IsWarned card_id warning = (warning ≡ none) ⊎ (warning ≡ some (downgraded card_id))

warning_for :
    (as_of : ℕ) (card : WorkCandidate) → IsWarned card.card_id (downgrade_warning as_of card)
warning_for as_of card = elim (Bool-cases (is_downgraded as_of card)) [
  | inl lowered ↦ inr (rw lowered refl)
  | inr stays ↦ inl (rw stays refl)
]

module _ (local_zone : ℕ → Result ℕ) where
  -- Whether the machine's zone gives a time an instant in the years 1 to 9999 by UTC.
  abbrev pub has_utc : Moment → Bool
  has_utc (Moment.aware t) = is_in_range t
  has_utc (Moment.naive t) = elim (local_zone t) [ err e ↦ false | ok u ↦ is_in_range u ]

  abbrev pub has_utc_at : Option Moment → Bool
  has_utc_at none = true
  has_utc_at (some m) = has_utc m

  -- The card's two dates, where it has them, are in these years.
  abbrev pub IsPlaced : WorkCandidate → Type 0
  IsPlaced card = (has_utc_at card.ready_at ≡ true) × (has_utc_at card.fixed_date_at ≡ true)

module _ (local_zone : ℕ → Result ℕ) (nfc : String → String) (policy : PortfolioPolicy) where
  utc_found :
      (m : Moment)
      → has_utc local_zone m ≡ true
      → (text : String) × (utc_text local_zone m ≡ ok text)
  utc_found (Moment.aware t) h = iso_text-ok t h
  utc_found (Moment.naive t) h = by_zone (local_zone t) h
    where
      by_zone :
          (o : Result ℕ)
          → elim o as (λ _. Bool) [ err e ↦ false | ok u ↦ is_in_range u ] ≡ true
          → (text : String) × ((o >>= iso_text) ≡ ok text)
      by_zone (err e) h = cc
      by_zone (ok u) h = iso_text-ok u h

  fixed_found :
      (m : Option Moment)
      → has_utc_at local_zone m ≡ true
      → (text : String) × (fixed_text local_zone m ≡ ok text)
  fixed_found none h = (_, refl)
  fixed_found (some m) h = utc_found m h

  key_found :
      validate_orders nfc policy ≡ ok tt
      → (as_of : ℕ) (card : WorkCandidate) (ready : Moment) → card.ready_at ≡ some ready
      → IsPlaced local_zone card
      → (key : RankingKey) × (ranking_key local_zone policy as_of card ready ≡ ok key)
  unfolding ranking_key
  key_found h as_of card ready timed (ready_placed, fixed_placed) =
      let (_, fixed) = fixed_found card.fixed_date_at fixed_placed in
      let (_, classed) = class_index nfc policy (normalized as_of card) h in
      let (_, at) =
        utc_found ready (subst (λ m. has_utc_at local_zone m ≡ true) timed ready_placed) in
      let (_, ranked) = priority_index nfc policy card.priority h in
      rw (fixed, classed, at, ranked) (_, refl)

-- A card with no reason against it has a key, is eligible in every respect, and the plan has no reason.
abbrev pub IsChosen :
    PortfolioPolicy
    → ℕ
    → List (String × AgentCapacity)
    → List String
    → WorkCandidate
    → EligibilityDecision
    → Type 0
IsChosen policy as_of capacities reasons card d =
    (d.eligible ≡ true)
    × (reasons ≡ [])
    × ((key : RankingKey) × (d.ranking_key ≡ some key))
    × IsEligible policy as_of card (look_up card.target_executor_principal_id capacities)

pub record Outcome (nfc : String → String) (policy : PortfolioPolicy) (as_of : ℕ)
    (capacities : List (String × AgentCapacity)) (reasons : List String) (card : WorkCandidate)
    (d : Decided) : Type 0 where
  pub same_id : d.0.card_id ≡ card.card_id
  pub in_order : IsAscending (λ s. s) d.0.reason_codes
  pub normal : All (IsNormal nfc) d.0.reason_codes
  pub warned : IsWarned card.card_id d.1
  pub verdict : (d.0.eligible ≡ false) ⊎ IsChosen policy as_of capacities reasons card d.0

module _ (local_zone : ℕ → Result ℕ) (nfc : String → String)
    (ascii : (s : String) → is_ascii s ≡ true → nfc s ≡ s) (policy : PortfolioPolicy)
    (valid : validate_orders nfc policy ≡ ok tt) (as_of : ℕ)
    (capacities : List (String × AgentCapacity)) where
  module _ (card : WorkCandidate) (placed : IsPlaced local_zone card) where
    executor : Option AgentCapacity
    executor = look_up card.target_executor_principal_id capacities

    decided_by :
        (reasons : List String) (ready : Option Moment)
        → reasons_against policy as_of card executor ≡ reasons
        → card.ready_at ≡ ready
        → (d : Decided) × (candidate_decision local_zone policy as_of card executor ≡ ok d)
          × Outcome nfc policy as_of capacities [] card d
    unfolding candidate_decision key_unless executor ranking_key key_found
    decided_by (reason ∷ reasons) ready h g = (
      (
        record {
          card_id = card.card_id;
          eligible = false;
          reason_codes = reason ∷ reasons;
          normalized_class = normalized as_of card;
          ranking_key = none;
        },
        downgrade_warning as_of card,
      ),
      rw h refl,
      record {
        same_id = refl;
        in_order =
            subst (IsAscending (λ s. s)) h (reasons_against-IsAscending policy as_of card executor);
        normal =
            All-mono ascii (reason ∷ reasons)
              (subst (All IsAscii) h (reasons_against-IsAscii policy as_of card executor));
        warned = warning_for as_of card;
        verdict = inl refl;
      },
    )
    decided_by [] none h g =
        absurd (never (reasons_against-IsEligible policy as_of card executor h).ready)
      where
        never : ((t : ℕ) × (card.ready_at ≡ some (Moment.aware t))) → ⊥
        never (t, timed) = cc
    decided_by [] (some ready) h g =
        let (key, keyed) = key_found local_zone nfc policy valid as_of card ready g placed in
        (
          (
            record {
              card_id = card.card_id;
              eligible = true;
              reason_codes = [];
              normalized_class = normalized as_of card;
              ranking_key = some key;
            },
            downgrade_warning as_of card,
          ),
          rw (h, g, keyed) refl,
          record {
            same_id = refl;
            in_order = tt;
            normal = tt;
            warned = warning_for as_of card;
            verdict =
                inr (
                  refl,
                  refl,
                  (key, refl),
                  reasons_against-IsEligible policy as_of card executor h,
                );
          },
        )

  -- Every card whose dates are placed has a decision: the plan's own reasons, where there are any, and else its own.
  pub decide-Outcome :
      (reasons : List String)
      → IsAscending (λ s. s) reasons
      → All IsAscii reasons
      → (card : WorkCandidate) → IsPlaced local_zone card
      → (d : Decided) × (decide nfc local_zone capacities policy as_of reasons card ≡ ok d)
        × Outcome nfc policy as_of capacities reasons card d
  unfolding decide executor
  decide-Outcome [] up plain card placed =
      decided_by card placed (reasons_against policy as_of card (executor card placed))
        card.ready_at refl refl
  decide-Outcome (reason ∷ reasons) up plain card placed = (
    excluded (reason ∷ reasons) card,
    refl,
    record {
      same_id = refl;
      in_order = up;
      normal = All-mono ascii (reason ∷ reasons) plain;
      warned = inl refl;
      verdict = inl refl;
    },
  )
