-- ===== src/Portfolio/Demands.antt =====
-- src/skcoord/portfolio_contracts.py: what is enough for the validators to demand nothing more.
use skcoord.Prelude.{
  ℕ, suc, String, ◌≡◌, refl, inl, inr, Bool, true, false, List, [], ◌∷◌, arith, map, any_of, All,
  Bool-cases, IsAscending, same_list_refl, sort_by_sorted, ascending-IsSorted, ascending-is_unique,
  ok, demand, >>=-eq-ok, ordered_text,
}
use skcoord.Portfolio.Model.{ClassOfService, Priority, same_service, same_priority, PortfolioPolicy}
use skcoord.Portfolio.Contracts.{
  is_order, services, priorities, require_sorted_unique, validate_orders, new_exclusion,
}
use skcoord.Portfolio.Candidate.{index_of}

demanded : (b : Bool) (message : String) {done : Unit {0}} → demand b message ≡ ok done → b ≡ true
demanded true message h = refl
demanded false message h = cc

index_found :
    {A : Type 0} (test : A → Bool) (l : List A)
    → any_of test l ≡ true
    → (n : ℕ) × (index_of test l ≡ ok n)
unfolding index_of
index_found test [] h = cc
index_found test (x ∷ l) h = elim (Bool-cases (test x)) [
  | inl here ↦ (0, rw here refl)
  | inr later ↦
      let (n, found) = index_found test l (ground arith) in (suc n, rw (later, found) refl)
]

module _ (nfc : String → String) where
  orders_hold :
      (policy : PortfolioPolicy)
      → validate_orders nfc policy ≡ ok tt
      → (is_order same_service services policy.class_order ≡ true)
        × (is_order same_priority priorities policy.priority_order ≡ true)
  unfolding validate_orders
  orders_hold policy h =
      let (_, classes, after) =
        >>=-eq-ok (demand (is_order same_service services policy.class_order) _) _ h in
      let (_, ranks, rest) =
        >>=-eq-ok (demand (is_order same_priority priorities policy.priority_order) _) _ after in
      (demanded _ _ classes, demanded _ _ ranks)

  every_class :
      (order : List ClassOfService) (c : ClassOfService)
      → is_order same_service services order ≡ true
      → any_of (same_service c) order ≡ true
  unfolding is_order
  every_class order ClassOfService.expedite h = ground arith
  every_class order ClassOfService.fixed_date h = ground arith
  every_class order ClassOfService.standard h = ground arith
  every_class order ClassOfService.intangible h = ground arith

  every_priority :
      (order : List Priority) (p : Priority)
      → is_order same_priority priorities order ≡ true
      → any_of (same_priority p) order ≡ true
  unfolding is_order
  every_priority order Priority.critical h = ground arith
  every_priority order Priority.high h = ground arith
  every_priority order Priority.medium h = ground arith
  every_priority order Priority.low h = ground arith

  -- A valid policy ranks every class and every priority.
  pub class_index :
      (policy : PortfolioPolicy) (c : ClassOfService)
      → validate_orders nfc policy ≡ ok tt
      → (n : ℕ) × (index_of (same_service c) policy.class_order ≡ ok n)
  class_index policy c h =
      index_found (same_service c) policy.class_order
        (every_class policy.class_order c (orders_hold policy h).0)

  pub priority_index :
      (policy : PortfolioPolicy) (p : Priority)
      → validate_orders nfc policy ≡ ok tt
      → (n : ℕ) × (index_of (same_priority p) policy.priority_order ≡ ok n)
  priority_index policy p h =
      index_found (same_priority p) policy.priority_order
        (every_priority policy.priority_order p (orders_hold policy h).1)

  abbrev pub IsNormal : String → Type 0
  IsNormal s = nfc s ≡ s

  map_normal : (l : List String) → All IsNormal l → map nfc l ≡ l
  map_normal [] h = refl
  map_normal (x ∷ l) (h, t) = λ i. h i ∷ map_normal l t i

  pub require_sorted_unique-ok :
      (l : List String) (message : String)
      → All IsNormal l
      → IsAscending (λ s. s) l
      → require_sorted_unique nfc l message ≡ ok tt
  unfolding require_sorted_unique
  require_sorted_unique-ok l message normal up =
      rw
        (
          map_normal l normal,
          sort_by_sorted (λ s. s) l (ascending-IsSorted (λ s. s) l up),
          same_list_refl l,
          ascending-is_unique l up,
        )
        refl

  pub new_exclusion-ok :
      (card_id : String) (l : List String)
      → All IsNormal l
      → IsAscending (λ s. s) l
      → new_exclusion nfc card_id l ≡ ok (record { card_id = card_id; reason_codes = l })
  unfolding new_exclusion
  new_exclusion-ok card_id l normal up =
      rw (require_sorted_unique-ok l "reason_codes must be sorted and unique" normal up) refl
