-- ===== src/Prelude/Sorting/Laws.antt =====
-- What the sorts answer: they are in order, hold the same entries, and leave a sorted list as it is.
use Prim.Native.Nat.{Ordering}
use mathlib.Core.Path.{◌≡◌, refl, sym, ap, ◌∙◌, subst}
use mathlib.Core.Logic.{inl, inr}
use mathlib.Core.Bool.{Bool, true, false}
use mathlib.Core.List.{List, [], ◌∷◌, map}
use native.Mathlib.Omega.{arith}
use skcoord.Prelude.Tests.{Bool-cases}
use skcoord.Prelude.Lists.{All, keep_if}
use skcoord.Prelude.Order.{Ordered, flip}
use skcoord.Prelude.Sorting.{
  is_lt, is_eq, insert_by, sort_by, holds, is_unique, IsAscending, IsSorted,
}

true-ne-false : true ≡ false → ⊥
true-ne-false h = cc

module _ {ℓ} {A : Type ℓ} where
  pub All-mono {κ ι} :
      {P : A → Type κ} {Q : A → Type ι} → ((x : A) → P x → Q x) → (l : List A) → All P l → All Q l
  All-mono f [] all = tt
  All-mono f (x ∷ l) (p, all) = (f x p, All-mono f l all)

  pub All-keep_if {κ} :
      (P : A → Type κ) (test : A → Bool) (l : List A) → All P l → All P (keep_if test l)
  All-keep_if P test [] all = tt
  All-keep_if P test (x ∷ l) (p, all) = elim (Bool-cases (test x)) [
    | inl kept ↦ rw kept (p, All-keep_if P test l all)
    | inr dropped ↦ rw dropped (All-keep_if P test l all)
  ]

  pub All-map {ι κ} :
      {B : Type ι} (P : B → Type κ) (f : A → B) (l : List A)
      → All (λ x. P (f x)) l
      → All P (map f l)
  All-map P f [] all = tt
  All-map P f (x ∷ l) (p, all) = (p, All-map P f l all)

pub lt_path : (o : Ordering) → is_lt o ≡ true → o ≡ Ordering.lt
lt_path Ordering.lt h = refl
lt_path Ordering.eq h = cc
lt_path Ordering.gt h = cc

pub eq_path : (o : Ordering) → is_eq o ≡ true → o ≡ Ordering.eq
eq_path Ordering.lt h = cc
eq_path Ordering.eq h = refl
eq_path Ordering.gt h = cc

module _ {κ} {K : Type κ} ⦃order : Ordered K⦄ where
  pub asymmetric :
      (x y : K) → is_lt (order.compared x y) ≡ true → is_lt (order.compared y x) ≡ false
  asymmetric x y h = rw (order.compared_flip x y) (turned (order.compared x y) h)
    where
      turned : (o : Ordering) → is_lt o ≡ true → is_lt (flip o) ≡ false
      turned Ordering.lt g = refl
      turned Ordering.eq g = cc
      turned Ordering.gt g = cc

  less_trans :
      (x y z : K)
      → is_lt (order.compared x y) ≡ true
      → is_lt (order.compared y z) ≡ true
      → is_lt (order.compared x z) ≡ true
  less_trans x y z g h = ap is_lt (order.compared_trans x y z (lt_path _ g) (lt_path _ h))

  -- Below where neither above nor the same.
  pub less_else :
      (x y : K)
      → is_lt (order.compared y x) ≡ false
      → is_eq (order.compared x y) ≡ false
      → is_lt (order.compared x y) ≡ true
  less_else x y g h = turned (order.compared x y) (sym (ap is_lt (order.compared_flip x y)) ∙ g) h
    where
      turned : (o : Ordering) → is_lt (flip o) ≡ false → is_eq o ≡ false → is_lt o ≡ true
      turned Ordering.lt g h = refl
      turned Ordering.eq g h = cc
      turned Ordering.gt g h = cc

  pub not_less_trans :
      (x y z : K)
      → is_lt (order.compared y x) ≡ false
      → is_lt (order.compared z y) ≡ false
      → is_lt (order.compared z x) ≡ false
  not_less_trans x y z g h = elim (Bool-cases (is_eq (order.compared x y))) [
    | inl same ↦
        subst (λ k. is_lt (order.compared z k) ≡ false)
          (sym (order.compared_eq x y (eq_path _ same))) h
    | inr other ↦ elim (Bool-cases (is_lt (order.compared z x))) [
      | inl above ↦
          absurd (true-ne-false (sym (less_trans z x y above (less_else x y g other)) ∙ h))
      | inr stays ↦ stays
    ]
  ]

  pub self_eq : (x : K) → is_eq (order.compared x x) ≡ true
  self_eq x = turned (order.compared x x) (order.compared_flip x x)
    where
      turned : (o : Ordering) → o ≡ flip o → is_eq o ≡ true
      turned Ordering.lt h = cc
      turned Ordering.eq h = refl
      turned Ordering.gt h = cc

  pub lt_is_not-eq :
      (x y : K) → is_lt (order.compared x y) ≡ true → is_eq (order.compared x y) ≡ false
  lt_is_not-eq x y h = rw (lt_path _ h) refl

module _ {ℓ κ} {A : Type ℓ} {K : Type κ} ⦃order : Ordered K⦄ (key : A → K) where
  insert_by-All {ι} :
      (P : A → Type ι) (x : A) (l : List A) → P x → All P l → All P (insert_by key x l)
  unfolding insert_by
  insert_by-All P x [] p all = (p, tt)
  insert_by-All P x (y ∷ l) p (q, all) =
      elim (Bool-cases (is_lt (order.compared (key y) (key x)))) [
        | inl below ↦ rw below (q, insert_by-All P x l p all)
        | inr above ↦ rw above (p, (q, all))
      ]

  pub sort_by-All {ι} : (P : A → Type ι) (l : List A) → All P l → All P (sort_by key l)
  unfolding sort_by
  sort_by-All P [] all = tt
  sort_by-All P (x ∷ l) (p, all) = insert_by-All P x (sort_by key l) p (sort_by-All P l all)

  insert_by-IsSorted : (x : A) (l : List A) → IsSorted key l → IsSorted key (insert_by key x l)
  unfolding insert_by
  insert_by-IsSorted x [] sorted = (tt, tt)
  insert_by-IsSorted x (y ∷ l) (first, sorted) =
      elim (Bool-cases (is_lt (order.compared (key y) (key x)))) [
        | inl below ↦ rw below (
          insert_by-All (λ z. is_lt (order.compared (key z) (key y)) ≡ false) x l
              (asymmetric (key y) (key x) below) first,
          insert_by-IsSorted x l sorted,
        )
        | inr above ↦ rw above (
          (above, All-mono (λ z. not_less_trans (key x) (key y) (key z) above) l first),
          (first, sorted),
        )
      ]

  pub sort_by-IsSorted : (l : List A) → IsSorted key (sort_by key l)
  unfolding sort_by
  sort_by-IsSorted [] = tt
  sort_by-IsSorted (x ∷ l) = insert_by-IsSorted x (sort_by key l) (sort_by-IsSorted l)

  insert_by-IsAscending :
      (x : A) (l : List A)
      → All (λ y. is_eq (order.compared (key x) (key y)) ≡ false) l
      → IsAscending key l
      → IsAscending key (insert_by key x l)
  unfolding insert_by
  insert_by-IsAscending x [] apart up = (tt, tt)
  insert_by-IsAscending x (y ∷ l) (other, apart) (first, up) =
      elim (Bool-cases (is_lt (order.compared (key y) (key x)))) [
        | inl below ↦ rw below (
          insert_by-All (λ z. is_lt (order.compared (key y) (key z)) ≡ true) x l below first,
          insert_by-IsAscending x l apart up,
        )
        | inr above ↦ rw above (
          (
            less_else (key x) (key y) above other,
            All-mono
                (λ z. less_trans (key x) (key y) (key z) (less_else (key x) (key y) above other)) l
                first,
          ),
          (first, up),
        )
      ]

  -- No key among those of the list, entry by entry.
  apart_from :
      (k : K) (l : List A)
      → holds k (map key l) ≡ false
      → All (λ y. is_eq (order.compared k (key y)) ≡ false) l
  unfolding holds
  apart_from k [] h = tt
  apart_from k (y ∷ l) h = (ground arith, apart_from k l (ground arith))

  pub sort_by-IsAscending :
      (l : List A) → is_unique (map key l) ≡ true → IsAscending key (sort_by key l)
  unfolding sort_by is_unique
  sort_by-IsAscending [] h = tt
  sort_by-IsAscending (x ∷ l) h =
      insert_by-IsAscending x (sort_by key l)
        (sort_by-All (λ y. is_eq (order.compared (key x) (key y)) ≡ false) l
          (apart_from (key x) l (ground arith)))
        (sort_by-IsAscending l (ground arith))
