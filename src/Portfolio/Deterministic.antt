-- ===== src/Portfolio/Deterministic.antt =====
-- src/skcoord/portfolio.py: the plan does not depend on the order in which its candidates are given.
use mathlib.Core.List.{Permᴰ}
use mathlib.Core.Path.{ap₂}
use skcoord.Prelude.{
  ℕ, suc, String, ◌≡◌, refl, sym, ap, ◌∙◌, true, false, some, List, [], ◌∷◌, arith, map, put,
  look_up, look_up-put, is_unique, holds, is_eq_comm, sort_by, keep_if, ordered_text,
  ordered_option, ordered_tuple, ordered_number, ordered_integer, sort_by-Permᴰ, is_unique-Permᴰ,
  Result, ok, err, ◌>>=◌, each, eq_iff, ◌==◌, if◌then◌else◌,
}
use skcoord.Portfolio.IsoFormat.{Moment}
use skcoord.Portfolio.Model.{
  PortfolioPolicy, PlanDataQuality, AgentCapacity, WorkCandidate, EligibilityDecision,
  CanonicalSourceRef,
}
use skcoord.Portfolio.Evaluate.{
  Decided, by_id, decisions_in, plan_reasons, ordered_candidates, rank_one, rank_from, decide,
  assemble, evaluate_portfolio,
}
use skcoord.Portfolio.Along.{other_text}

by_id_cong :
    (found found' : List (String × WorkCandidate)) (cards : List WorkCandidate)
    → ((id : String) → look_up id found ≡ look_up id found')
    → (id : String) → look_up id (by_id found cards) ≡ look_up id (by_id found' cards)
unfolding by_id
by_id_cong found found' [] same id = same id
by_id_cong found found' (c ∷ cards) same id =
    by_id_cong (put c.card_id c found) (put c.card_id c found') cards
      (λ id.
        look_up-put c.card_id id c found
        ∙ ap (λ o. if c.card_id == id then some c else o) (same id)
        ∙ sym (look_up-put c.card_id id c found'))
      id

put_comm :
    (a b : WorkCandidate) (found : List (String × WorkCandidate)) (id : String)
    → (a.card_id == b.card_id) ≡ false
    → look_up id (put b.card_id b (put a.card_id a found))
      ≡ look_up id (put a.card_id a (put b.card_id b found))
put_comm a b found id h = ground (
  arith,
  look_up-put b.card_id id b (put a.card_id a found),
  look_up-put a.card_id id a found,
  look_up-put a.card_id id a (put b.card_id b found),
  look_up-put b.card_id id b found,
  eq_iff a.card_id id,
  eq_iff b.card_id id,
  eq_iff a.card_id b.card_id,
)

ids : List WorkCandidate → List String
ids = map (λ c. c.card_id)

by_id-Permᴰ :
    (found : List (String × WorkCandidate)) (l l' : List WorkCandidate)
    → Permᴰ l l'
    → is_unique (ids l) ≡ true
    → (id : String) → look_up id (by_id found l) ≡ look_up id (by_id found l')
unfolding by_id ids is_unique holds
by_id-Permᴰ found l l' Permᴰ.nil h id = refl
by_id-Permᴰ found (a ∷ l) (b ∷ l') (Permᴰ.cons e p) h id =
    by_id-Permᴰ (put a.card_id a found) l l' p (ground arith) id
    ∙ ap (λ c. look_up id (by_id (put c.card_id c found) l')) e
by_id-Permᴰ found (a ∷ b ∷ l) (a' ∷ b' ∷ _) (Permᴰ.swap e g) h id =
    by_id_cong _ _ l
      (λ id.
        put_comm a b found id
          (other_text b.card_id a.card_id (is_eq_comm b.card_id a.card_id ∙ ground arith)))
      id
    ∙ ap₂ (λ x y. look_up id (by_id (put y.card_id y (put x.card_id x found)) l)) g e
by_id-Permᴰ found l l' (Permᴰ.trans {l₂ = m} p q) h id =
    by_id-Permᴰ found l m p h id
    ∙ by_id-Permᴰ found m l' q (sym (is_unique-Permᴰ (λ c. c.card_id) l m p) ∙ h) id

rank_from_cong :
    (cards cards' : List (String × WorkCandidate))
    → ((id : String) → look_up id cards ≡ look_up id cards')
    → (index : ℕ) (l : List EligibilityDecision)
    → rank_from cards index l ≡ rank_from cards' index l
unfolding rank_from rank_one
rank_from_cong cards cards' same index [] = refl
rank_from_cong cards cards' same index (d ∷ l) =
    rw (same d.card_id, rank_from_cong cards cards' same (suc index) l) refl

bind_cong :
    {A B : Type 0} (call : Result A) (f g : A → Result B)
    → ((x : A) → f x ≡ g x)
    → (call >>= f) ≡ (call >>= g)
bind_cong (err e) f g same = refl
bind_cong (ok x) f g same = same x

module _ (l l' : List WorkCandidate) (p : Permᴰ l l') (h : is_unique (ids l) ≡ true) where
  unique_too : is_unique (ids l') ≡ true
  unfolding ids
  unique_too = sym (is_unique-Permᴰ (λ c. c.card_id) l l' p) ∙ h

  same_order : ordered_candidates l ≡ ordered_candidates l'
  unfolding ordered_candidates ids unique_too
  same_order = rw (h, unique_too) (sort_by-Permᴰ (λ c. c.card_id) l l' p h)

  same_reasons :
      (quality : PlanDataQuality) (policy : PortfolioPolicy) (as_of : ℕ)
      → plan_reasons quality policy as_of l ≡ plan_reasons quality policy as_of l'
  unfolding plan_reasons ids unique_too
  same_reasons quality policy as_of = rw (h, unique_too) refl

-- The assembled plan reads the candidates by their ids only.
same_plan :
    (nfc : String → String) (zone : ℕ → Result ℕ) (l l' : List WorkCandidate)
    → Permᴰ l l'
    → is_unique (ids l) ≡ true
    → (quality : PlanDataQuality) (policy : PortfolioPolicy) (hash : String)
      (refs : List CanonicalSourceRef) (reasons : List String) (decided : List Decided)
    → assemble nfc zone l quality policy hash refs reasons decided
      ≡ assemble nfc zone l' quality policy hash refs reasons decided
unfolding assemble
same_plan nfc zone l l' p h quality policy hash refs reasons decided =
    rw
      (rank_from_cong (by_id [] l) (by_id [] l') (by_id-Permᴰ [] l l' p h) 1
        (sort_by (λ d. d.ranking_key) (keep_if (λ d. d.eligible) (decisions_in decided))))
      refl

-- Candidates whose ids differ, given in another order, make the same plan, and raise the same.
pub evaluate_portfolio-perm :
    (nfc : String → String) (local_zone : ℕ → Result ℕ) (l l' : List WorkCandidate)
    (capacities : List (String × AgentCapacity)) (quality : PlanDataQuality)
    (policy : PortfolioPolicy) (objective_hash : String) (as_of : Moment)
    (refs : List CanonicalSourceRef)
    → Permᴰ l l'
    → is_unique (map (λ c. c.card_id) l) ≡ true
    → evaluate_portfolio nfc local_zone l capacities quality policy objective_hash as_of refs
      ≡ evaluate_portfolio nfc local_zone l' capacities quality policy objective_hash as_of refs
unfolding evaluate_portfolio ids
evaluate_portfolio-perm nfc zone l l' capacities quality policy hash (Moment.naive t) refs p h =
    refl
evaluate_portfolio-perm nfc zone l l' capacities quality policy hash (Moment.aware t) refs p h =
    rw (same_order l l' p h, same_reasons l l' p h quality policy t)
      (bind_cong
        (each (decide nfc zone capacities policy t (plan_reasons quality policy t l'))
          (ordered_candidates l'))
        (assemble nfc zone l quality policy hash refs (plan_reasons quality policy t l'))
        (assemble nfc zone l' quality policy hash refs (plan_reasons quality policy t l'))
        (same_plan nfc zone l l' p h quality policy hash refs (plan_reasons quality policy t l')))
