-- ===== src/Prelude/Sorting/Canonical.antt =====
-- Lists in strict order: a sort leaves them, and no entry stands twice in them.
use Prim.Native.Nat.{Ordering}
use mathlib.Core.Path.{◌≡◌, refl, ap, ◌∙◌}
use mathlib.Core.Logic.{inl, inr}
use mathlib.Core.Bool.{Bool, true, false, ◌||◌}
use mathlib.Core.List.{List, [], ◌∷◌, map}
use native.Mathlib.Omega.{arith}
use skcoord.Prelude.Tests.{Bool-cases}
use skcoord.Prelude.Lists.{All, keep_if}
use skcoord.Prelude.Order.{Ordered, flip}
use skcoord.Prelude.Sorting.{
  is_lt, is_eq, insert_by, sort_by, holds, is_unique, same_list, once_each, sort_set, IsAscending,
  IsSorted,
}
use skcoord.Prelude.Sorting.Laws.{
  All-mono, All-keep_if, All-map, self_eq, asymmetric, lt_is_not-eq, sort_by-IsAscending,
}

module _ {ℓ κ} {A : Type ℓ} {K : Type κ} ⦃order : Ordered K⦄ (key : A → K) where
  pub keep_if-IsAscending :
      (test : A → Bool) (l : List A) → IsAscending key l → IsAscending key (keep_if test l)
  keep_if-IsAscending test [] up = tt
  keep_if-IsAscending test (x ∷ l) (first, up) = elim (Bool-cases (test x)) [
    | inl kept ↦ rw kept (
      All-keep_if (λ y. is_lt (order.compared (key x) (key y)) ≡ true) test l first,
      keep_if-IsAscending test l up,
    )
    | inr dropped ↦ rw dropped (keep_if-IsAscending test l up)
  ]

  -- The keys of a list in order are in order.
  pub map-IsAscending : (l : List A) → IsAscending key l → IsAscending (λ k. k) (map key l)
  map-IsAscending [] up = tt
  map-IsAscending (x ∷ l) (first, up) =
      (All-map (λ k. is_lt (order.compared (key x) k) ≡ true) key l first, map-IsAscending l up)

  pub map-IsSorted : (l : List A) → IsSorted key l → IsSorted (λ k. k) (map key l)
  map-IsSorted [] sorted = tt
  map-IsSorted (x ∷ l) (first, sorted) =
      (All-map (λ k. is_lt (order.compared k (key x)) ≡ false) key l first, map-IsSorted l sorted)

  pub ascending-IsSorted : (l : List A) → IsAscending key l → IsSorted key l
  ascending-IsSorted [] up = tt
  ascending-IsSorted (x ∷ l) (first, up) =
      (All-mono (λ y. asymmetric (key x) (key y)) l first, ascending-IsSorted l up)

  insert_by_least :
      (x : A) (l : List A)
      → All (λ y. is_lt (order.compared (key y) (key x)) ≡ false) l
      → insert_by key x l ≡ x ∷ l
  unfolding insert_by
  insert_by_least x [] first = refl
  insert_by_least x (y ∷ l) (above, first) = rw above refl

  pub sort_by_sorted : (l : List A) → IsSorted key l → sort_by key l ≡ l
  unfolding sort_by
  sort_by_sorted [] sorted = refl
  sort_by_sorted (x ∷ l) (first, sorted) =
      ap (insert_by key x) (sort_by_sorted l sorted) ∙ insert_by_least x l first

module _ {κ} {K : Type κ} ⦃order : Ordered K⦄ where
  pub same_list_refl : (l : List K) → same_list l l ≡ true
  unfolding same_list
  same_list_refl [] = refl
  same_list_refl (x ∷ l) = rw (self_eq x) (same_list_refl l)

  holds_none :
      (x : K) (l : List K) → All (λ y. is_lt (order.compared x y) ≡ true) l → holds x l ≡ false
  unfolding holds
  holds_none x [] first = refl
  holds_none x (y ∷ l) (below, first) = rw (lt_is_not-eq x y below) (holds_none x l first)

  pub ascending-is_unique : (l : List K) → IsAscending (λ k. k) l → is_unique l ≡ true
  unfolding is_unique
  ascending-is_unique [] up = refl
  ascending-is_unique (x ∷ l) (first, up) = rw (holds_none x l first, ascending-is_unique l up) refl

  pub once_each-is_unique : (l : List K) → is_unique (once_each l) ≡ true
  unfolding once_each is_unique
  once_each-is_unique [] = refl
  once_each-is_unique (x ∷ l) = elim (Bool-cases (holds x (once_each l))) [
    | inl old ↦ rw old (once_each-is_unique l)
    | inr new ↦ rw new (rw new (once_each-is_unique l))
  ]

  map_id : (l : List K) → map (λ k. k) l ≡ l
  map_id [] = refl
  map_id (x ∷ l) = ap (λ l. x ∷ l) (map_id l)

  -- sorted(set(xs)) is in strict order.
  pub sort_set-IsAscending : (l : List K) → IsAscending (λ k. k) (sort_set l)
  sort_set-IsAscending l =
      sort_by-IsAscending (λ k. k) (once_each l)
        (ap is_unique (map_id (once_each l)) ∙ once_each-is_unique l)

module _ {ℓ κ} {A : Type ℓ} {K : Type κ} ⦃order : Ordered K⦄ (key : A → K) where
  All-unmap {ι} : (P : K → Type ι) (l : List A) → All P (map key l) → All (λ x. P (key x)) l
  All-unmap P [] all = tt
  All-unmap P (x ∷ l) (p, all) = (p, All-unmap P l all)

  -- A list whose keys are in strict order is so by its keys.
  pub unmap-IsAscending : (l : List A) → IsAscending (λ k. k) (map key l) → IsAscending key l
  unmap-IsAscending [] up = tt
  unmap-IsAscending (x ∷ l) (first, up) =
      (All-unmap (λ k. is_lt (order.compared (key x) k) ≡ true) l first, unmap-IsAscending l up)

module _ {κ} {K : Type κ} ⦃order : Ordered K⦄ where
  pub is_eq_comm : (x y : K) → is_eq (order.compared x y) ≡ is_eq (order.compared y x)
  is_eq_comm x y = rw (order.compared_flip x y) (turned (order.compared x y))
    where
      turned : (o : Ordering) → is_eq o ≡ is_eq (flip o)
      turned Ordering.lt = refl
      turned Ordering.eq = refl
      turned Ordering.gt = refl

module _ {ℓ κ ι} {A : Type ℓ} {K : Type κ} {F : Type ι} ⦃order : Ordered K⦄ ⦃named : Ordered F⦄
    (key : A → K) (name : A → F) where
  holds-insert_by :
      (n : F) (x : A) (l : List A)
      → holds n (map name (insert_by key x l))
        ≡ (is_eq (named.compared n (name x)) || holds n (map name l))
  unfolding insert_by holds
  holds-insert_by n x [] = refl
  holds-insert_by n x (y ∷ l) = ground (arith, holds-insert_by n x l)

  holds-sort_by : (n : F) (l : List A) → holds n (map name (sort_by key l)) ≡ holds n (map name l)
  unfolding sort_by holds
  holds-sort_by n [] = refl
  holds-sort_by n (x ∷ l) =
      holds-insert_by n x (sort_by key l)
      ∙ ap (λ b. is_eq (named.compared n (name x)) || b) (holds-sort_by n l)

  insert_by-is_unique :
      (x : A) (l : List A)
      → holds (name x) (map name l) ≡ false
      → is_unique (map name l) ≡ true
      → is_unique (map name (insert_by key x l)) ≡ true
  unfolding insert_by holds is_unique
  insert_by-is_unique x [] h u = refl
  insert_by-is_unique x (y ∷ l) h u =
      ground
        (arith, holds-insert_by (name y) x l, is_eq_comm (name x) (name y), insert_by-is_unique x l)

  -- A sort by one key keeps another one that stands once only.
  pub sort_by-is_unique :
      (l : List A) → is_unique (map name l) ≡ true → is_unique (map name (sort_by key l)) ≡ true
  unfolding sort_by holds is_unique
  sort_by-is_unique [] h = refl
  sort_by-is_unique (x ∷ l) h =
      insert_by-is_unique x (sort_by key l) (holds-sort_by (name x) l ∙ ground arith)
        (sort_by-is_unique l (ground arith))
