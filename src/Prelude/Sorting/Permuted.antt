-- ===== src/Prelude/Sorting/Permuted.antt =====
-- A sort by keys that stand once only does not read the order of its list.
use mathlib.Core.Path.{◌≡◌, refl, sym, ap, ap₂, ◌∙◌}
use mathlib.Core.Logic.{inl, inr}
use mathlib.Core.Bool.{true, false}
use mathlib.Core.List.{List, [], ◌∷◌, map, Permᴰ}
use native.Mathlib.Omega.{arith}
use skcoord.Prelude.Tests.{Bool-cases}
use skcoord.Prelude.Order.{Ordered}
use skcoord.Prelude.Sorting.{is_lt, is_eq, insert_by, sort_by, holds, is_unique}
use skcoord.Prelude.Sorting.Laws.{asymmetric, less_else, not_less_trans}
use skcoord.Prelude.Sorting.Canonical.{is_eq_comm}

module _ {ℓ κ} {A : Type ℓ} {K : Type κ} ⦃order : Ordered K⦄ (key : A → K) where
  -- Not above the one and below the other.
  less_past :
      (a y b : A)
      → is_lt (order.compared (key y) (key a)) ≡ false
      → is_lt (order.compared (key y) (key b)) ≡ true
      → is_lt (order.compared (key a) (key b)) ≡ true
  less_past a y b g h = elim (Bool-cases (is_lt (order.compared (key a) (key b)))) [
    | inl below ↦ below
    | inr above ↦ absurd (differ (sym h ∙ not_less_trans (key b) (key a) (key y) above g))
  ]
    where
      differ : true ≡ false → ⊥
      differ e = cc

  insert_past :
      (x y : A) (l : List A)
      → is_lt (order.compared (key y) (key x)) ≡ true
      → insert_by key x (y ∷ l) ≡ y ∷ insert_by key x l
  unfolding insert_by
  insert_past x y l h = rw h refl

  insert_here :
      (x y : A) (l : List A)
      → is_lt (order.compared (key y) (key x)) ≡ false
      → insert_by key x (y ∷ l) ≡ x ∷ y ∷ l
  unfolding insert_by
  insert_here x y l h = rw h refl

  -- One of the two stands before the head, and the other one behind it.
  crossed :
      (a b y : A) (l : List A)
      → is_lt (order.compared (key y) (key a)) ≡ false
      → is_lt (order.compared (key y) (key b)) ≡ true
      → insert_by key a (insert_by key b (y ∷ l)) ≡ insert_by key b (insert_by key a (y ∷ l))
  crossed a b y l over_a under_b =
      ap (insert_by key a) (insert_past b y l under_b)
      ∙ insert_here a y (insert_by key b l) over_a
      ∙ sym (
          ap (insert_by key b) (insert_here a y l over_a)
          ∙ insert_past b a (y ∷ l) (less_past a y b over_a under_b)
          ∙ ap (λ k. a ∷ k) (insert_past b y l under_b))

  -- Both stand before the head.
  ahead :
      (a b y : A) (l : List A)
      → is_lt (order.compared (key a) (key b)) ≡ true
      → is_lt (order.compared (key y) (key a)) ≡ false
      → is_lt (order.compared (key y) (key b)) ≡ false
      → insert_by key a (insert_by key b (y ∷ l)) ≡ insert_by key b (insert_by key a (y ∷ l))
  ahead a b y l below over_a over_b =
      ap (insert_by key a) (insert_here b y l over_b)
      ∙ insert_here a b (y ∷ l) (asymmetric (key a) (key b) below)
      ∙ sym (
          ap (insert_by key b) (insert_here a y l over_a)
          ∙ insert_past b a (y ∷ l) below
          ∙ ap (λ k. a ∷ k) (insert_here b y l over_b))

  insert_by_comm :
      (a b : A) (l : List A)
      → is_eq (order.compared (key a) (key b)) ≡ false
      → insert_by key a (insert_by key b l) ≡ insert_by key b (insert_by key a l)
  unfolding insert_by
  insert_by_comm a b [] h = elim (Bool-cases (is_lt (order.compared (key a) (key b)))) [
    | inl below ↦ rw (below, asymmetric (key a) (key b) below) refl
    | inr above ↦ rw (above, less_else (key b) (key a) above (is_eq_comm (key b) (key a) ∙ h)) refl
  ]
  insert_by_comm a b (y ∷ l) h = elim (Bool-cases (is_lt (order.compared (key y) (key b)))) [
    | inl under_b ↦ elim (Bool-cases (is_lt (order.compared (key y) (key a)))) [
      | inl under_a ↦
          ap (insert_by key a) (insert_past b y l under_b)
          ∙ insert_past a y (insert_by key b l) under_a
          ∙ ap (λ k. y ∷ k) (insert_by_comm a b l h)
          ∙ sym (
              ap (insert_by key b) (insert_past a y l under_a)
              ∙ insert_past b y (insert_by key a l) under_b)
      | inr over_a ↦ crossed a b y l over_a under_b
    ]
    | inr over_b ↦ elim (Bool-cases (is_lt (order.compared (key y) (key a)))) [
      | inl under_a ↦ sym (crossed b a y l over_b under_a)
      | inr over_a ↦ elim (Bool-cases (is_lt (order.compared (key a) (key b)))) [
        | inl below ↦ ahead a b y l below over_a over_b
        | inr above ↦ sym (
            ahead b a y l (less_else (key b) (key a) above (is_eq_comm (key b) (key a) ∙ h)) over_b
              over_a)
      ]
    ]
  ]

  pub holds-Permᴰ :
      (k : K) (l l' : List A) → Permᴰ l l' → holds k (map key l) ≡ holds k (map key l')
  unfolding holds
  holds-Permᴰ k l l' Permᴰ.nil = refl
  holds-Permᴰ k (a ∷ l) (b ∷ l') (Permᴰ.cons e p) = rw (e, holds-Permᴰ k l l' p) refl
  holds-Permᴰ k (a ∷ b ∷ l) (a' ∷ b' ∷ _) (Permᴰ.swap e g) = rw (e, g) (ground arith)
  holds-Permᴰ k l l' (Permᴰ.trans {l₂ = m} p q) = holds-Permᴰ k l m p ∙ holds-Permᴰ k m l' q

  unique_swap :
      (a b : A) (l : List A) → is_unique (map key (a ∷ b ∷ l)) ≡ is_unique (map key (b ∷ a ∷ l))
  unfolding is_unique holds
  unique_swap a b l = ground (arith, is_eq_comm (key a) (key b))

  pub is_unique-Permᴰ :
      (l l' : List A) → Permᴰ l l' → is_unique (map key l) ≡ is_unique (map key l')
  unfolding is_unique holds
  is_unique-Permᴰ l l' Permᴰ.nil = refl
  is_unique-Permᴰ (a ∷ l) (b ∷ l') (Permᴰ.cons e p) =
      rw (e, holds-Permᴰ (key b) l l' p, is_unique-Permᴰ l l' p) refl
  is_unique-Permᴰ (a ∷ b ∷ l) (a' ∷ b' ∷ _) (Permᴰ.swap e g) =
      unique_swap a b l ∙ ap₂ (λ x y. is_unique (map key (x ∷ y ∷ l))) g e
  is_unique-Permᴰ l l' (Permᴰ.trans {l₂ = m} p q) = is_unique-Permᴰ l m p ∙ is_unique-Permᴰ m l' q

  pub sort_by-Permᴰ :
      (l l' : List A) → Permᴰ l l' → is_unique (map key l) ≡ true → sort_by key l ≡ sort_by key l'
  unfolding sort_by is_unique holds
  sort_by-Permᴰ l l' Permᴰ.nil h = refl
  sort_by-Permᴰ (a ∷ l) (b ∷ l') (Permᴰ.cons e p) h =
      ap₂ (insert_by key) e (sort_by-Permᴰ l l' p (ground arith))
  sort_by-Permᴰ (a ∷ b ∷ l) (a' ∷ b' ∷ _) (Permᴰ.swap e g) h =
      insert_by_comm a b (sort_by key l) (ground arith)
      ∙ ap₂ (λ x y. insert_by key x (insert_by key y (sort_by key l))) g e
  sort_by-Permᴰ l l' (Permᴰ.trans {l₂ = m} p q) h =
      sort_by-Permᴰ l m p h ∙ sort_by-Permᴰ m l' q (sym (is_unique-Permᴰ l m p) ∙ h)
