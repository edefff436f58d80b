-- ===== src/Portfolio/Returns.antt =====
-- src/skcoord/portfolio.py: when there is no plan, and what is then said.
use skcoord.Prelude.{
  ℕ, String, ◌≡◌, refl, ap, ◌∙◌, ◌⊎◌, inl, inr, true, Option, none, some, List, [], ◌∷◌, map,
  keep_if, All, All-mono, ordered_text, ordered_tuple, ordered_number, ordered_integer,
  ordered_option, sort_by, IsAscending, ok,
}
use skcoord.Portfolio.Model.{
  PortfolioPolicy, AgentCapacity, WorkCandidate, RankedCandidate, CanonicalAbstention,
}
use skcoord.Portfolio.Contracts.{new_abstention, agrees}
use skcoord.Portfolio.Evaluate.{Decided, status_for, abstention_for, decisions_in}
use skcoord.Portfolio.Demands.{require_sorted_unique-ok}
use skcoord.Portfolio.Reasons.{IsAscii, is_ascii}
use skcoord.Portfolio.Rank.{AreRanked}
use skcoord.Portfolio.Entries.{Known, eligible_decisions}

module _ (nfc : String → String) (ascii : (s : String) → is_ascii s ≡ true → nfc s ≡ s) where
  -- Reasons in order make an abstention, and the plan's status says so.
  pub abstention_made :
      (l : List String)
      → IsAscending (λ s. s) l
      → All IsAscii l
      → (a : Option CanonicalAbstention) × (new_abstention nfc l ≡ ok a)
        × (agrees (status_for l) a ≡ true)
  unfolding new_abstention
  abstention_made [] up plain = (none, refl, refl)
  abstention_made (code ∷ codes) up plain = (
    some (record { reason_codes = code ∷ codes }),
    rw
        (require_sorted_unique-ok nfc (code ∷ codes) "reason_codes must be sorted and unique"
          (All-mono ascii (code ∷ codes) plain) up)
        refl,
    refl,
  )

pub abstention_up :
    (reasons : List String) (rs : List RankedCandidate)
    → IsAscending (λ s. s) reasons
    → All IsAscii reasons
    → IsAscending (λ s. s) (abstention_for reasons rs) × All IsAscii (abstention_for reasons rs)
unfolding is_ascii
abstention_up [] [] up plain = ((tt, tt), (refl, tt))
abstention_up [] (r ∷ rs) up plain = (tt, tt)
abstention_up (reason ∷ reasons) rs up plain = (up, plain)

module _ (nfc : String → String) (policy : PortfolioPolicy) (as_of : ℕ)
    (capacities : List (String × AgentCapacity)) (cards : List (String × WorkCandidate))
    (reasons : List String) where
  -- Where the plan has a reason no card is eligible.
  none_eligible :
      (l : List Decided)
      → All (Known nfc policy as_of capacities cards reasons) l
      → (reasons ≡ []) ⊎ (keep_if (λ d. d.eligible) (decisions_in l) ≡ [])
  none_eligible [] all = inr refl
  none_eligible ((d, w) ∷ l) ((c, plain, o), all) = elim o.verdict [
    | inr (_, clean, _, _) ↦ inl clean
    | inl out ↦ elim (none_eligible l all) [
      | inl clean ↦ inl clean
      | inr empty ↦ inr (rw out empty)
    ]
  ]

  pub none_ranked :
      (l : List Decided) (rs : List RankedCandidate)
      → AreRanked policy as_of capacities cards 1
          (eligible_decisions nfc policy as_of capacities cards reasons l)
          rs
      → All (Known nfc policy as_of capacities cards reasons) l
      → (reasons ≡ []) ⊎ (rs ≡ [])
  unfolding eligible_decisions sort_by
  none_ranked l rs are all = elim (none_eligible l all) [
    | inl clean ↦ inl clean
    | inr empty ↦ inr (
        nameless rs
          (are.same_ids ∙ ap (λ k. map (λ d. d.card_id) (sort_by (λ d. d.ranking_key) k)) empty))
  ]
    where
      nameless : (rs : List RankedCandidate) → map (λ r. r.card_id) rs ≡ [] → rs ≡ []
      nameless [] h = refl
      nameless (r ∷ rs) h = cc
