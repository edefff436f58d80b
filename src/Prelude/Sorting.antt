-- ===== src/Prelude/Sorting.antt =====
-- `sorted` with a key, which keeps the order of equal keys, and `sorted` of a set.
pub mod Laws
pub mod Canonical
pub mod Permuted
use Prim.Native.Nat.{Ordering}
use mathlib.Core.Path.{◌≡◌, refl, ap}
use mathlib.Core.Logic.{inl, inr}
use mathlib.Core.Bool.{Bool, true, false, not, ◌&&◌, ◌||◌}
use mathlib.Core.List.{List, [], ◌∷◌, map}
use native.Mathlib.Omega.{arith}
use skcoord.Prelude.Tests.{Bool-cases, if◌then◌else◌}
use skcoord.Prelude.Lists.{All, keep_if}
use skcoord.Prelude.Order.{Ordered, flip}

abbrev pub is_lt : Ordering → Bool
is_lt Ordering.lt = true
is_lt _ = false

abbrev pub is_eq : Ordering → Bool
is_eq Ordering.eq = true
is_eq _ = false

module _ {ℓ κ} {A : Type ℓ} {K : Type κ} ⦃order : Ordered K⦄ (key : A → K) where
  -- The entry before the first one whose key is not below its own.
  unfoldable pub insert_by : A → List A → List A
  insert_by x [] = x ∷ []
  insert_by x (y ∷ l) =
      let rest = insert_by x l in
      if is_lt (order.compared (key y) (key x)) then y ∷ rest else x ∷ y ∷ l

  -- sorted(entries, key=key)
  unfoldable pub sort_by : List A → List A
  sort_by [] = []
  sort_by (x ∷ l) = insert_by x (sort_by l)

module _ {κ} {K : Type κ} ⦃order : Ordered K⦄ where
  -- x in xs
  unfoldable pub holds : K → List K → Bool
  holds x [] = false
  holds x (y ∷ l) = is_eq (order.compared x y) || holds x l

  -- len(set(xs)) == len(xs)
  unfoldable pub is_unique : List K → Bool
  is_unique [] = true
  is_unique (x ∷ l) = not (holds x l) && is_unique l

  -- Two tuples are the same.
  unfoldable pub same_list : List K → List K → Bool
  same_list [] [] = true
  same_list [] (y ∷ ys) = false
  same_list (x ∷ xs) [] = false
  same_list (x ∷ xs) (y ∷ ys) = is_eq (order.compared x y) && same_list xs ys

  -- sorted(xs)
  abbrev pub sort_list : List K → List K
  sort_list = sort_by (λ x. x)

  -- list(set(xs)), without an order
  unfoldable pub once_each : List K → List K
  once_each [] = []
  once_each (x ∷ l) = let rest = once_each l in if holds x rest then rest else x ∷ rest

  -- sorted(set(xs))
  abbrev pub sort_set : List K → List K
  sort_set l = sort_list (once_each l)

module _ {ℓ κ} {A : Type ℓ} {K : Type κ} ⦃order : Ordered K⦄ (key : A → K) where
  -- Each key below all that follow it.
  abbrev pub IsAscending : List A → Type κ
  IsAscending [] = Unit
  IsAscending (x ∷ l) = All (λ y. is_lt (order.compared (key x) (key y)) ≡ true) l × IsAscending l

  -- No key below one that it follows.
  abbrev pub IsSorted : List A → Type κ
  IsSorted [] = Unit
  IsSorted (x ∷ l) = All (λ y. is_lt (order.compared (key y) (key x)) ≡ false) l × IsSorted l
