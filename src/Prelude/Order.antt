-- ===== src/Prelude/Order.antt =====
-- The total orders by which Python sorts: the numbers, the texts by their code points, tuples from the
-- left, and a value that may be missing.
use Prim.Native.Nat.{ℕ, Ordering, compare as compare_ℕ}
use Prim.Native.Char.{code}
use Prim.Native.String.{String, compare, then}
use Prim.Native.String.compare
use mathlib.Core.Path.{◌≡◌, refl, sym, ap, ◌∙◌}
use mathlib.Core.Option.{Option, none, some}
use skcoord.Prelude.Int.{ℤ, pos, negsuc}
use native.Mathlib.Omega.{arith}
use text.Mathlib.TextEquality.{path_by_compare}

-- The answer with the two sides changed over.
abbrev pub flip : Ordering → Ordering
flip Ordering.lt = Ordering.gt
flip Ordering.eq = Ordering.eq
flip Ordering.gt = Ordering.lt

pub record Ordered {ℓ} (A : Type ℓ) : Type ℓ where
  pub compared : A → A → Ordering
  pub compared_flip : (x y : A) → compared y x ≡ flip (compared x y)
  pub compared_trans :
      (x y z : A)
      → compared x y ≡ Ordering.lt
      → compared y z ≡ Ordering.lt
      → compared x z ≡ Ordering.lt
  pub compared_eq : (x y : A) → compared x y ≡ Ordering.eq → x ≡ y

flip-then : (o p : Ordering) → flip (then o p) ≡ then (flip o) (flip p)
flip-then Ordering.lt p = refl
flip-then Ordering.eq p = refl
flip-then Ordering.gt p = refl

both_eq : (o p : Ordering) → then o p ≡ Ordering.eq → (o ≡ Ordering.eq) × (p ≡ Ordering.eq)
both_eq Ordering.lt p h = cc
both_eq Ordering.eq p h = (refl, h)
both_eq Ordering.gt p h = cc

pub number_flip : (m n : ℕ) → compare_ℕ n m ≡ flip (compare_ℕ m n)
number_flip m n = ground arith

pub number_trans :
    (m n k : ℕ)
    → compare_ℕ m n ≡ Ordering.lt
    → compare_ℕ n k ≡ Ordering.lt
    → compare_ℕ m k ≡ Ordering.lt
number_trans m n k g h = ground arith

pub number_eq : (m n : ℕ) → compare_ℕ m n ≡ Ordering.eq → m ≡ n
number_eq m n h = ground arith

-- The order of the first components, then that of the second.
pub text_flip : (s t : String) → compare t s ≡ flip (compare s t)
text_flip String.[] String.[] = compare.nil-nil ∙ sym (ap flip compare.nil-nil)
text_flip String.[] (String.◌∷◌ d t) = compare.cons-nil d t ∙ sym (ap flip (compare.nil-cons d t))
text_flip (String.◌∷◌ c s) String.[] = compare.nil-cons c s ∙ sym (ap flip (compare.cons-nil c s))
text_flip (String.◌∷◌ c s) (String.◌∷◌ d t) =
    compare.cons-cons d c t s
    ∙ ap (then (compare_ℕ (code d) (code c))) (text_flip s t)
    ∙ ap (λ o. then o (flip (compare s t))) (number_flip (code c) (code d))
    ∙ sym (flip-then (compare_ℕ (code c) (code d)) (compare s t))
    ∙ sym (ap flip (compare.cons-cons c d s t))

-- Where the heads' order decides: the one relation composed with the other.
then_trans :
    (o p q : Ordering) (o' p' q' : Ordering)
    → (o ≡ Ordering.lt → p ≡ Ordering.lt → q ≡ Ordering.lt)
    → (o ≡ Ordering.eq → q ≡ p)
    → (p ≡ Ordering.eq → q ≡ o)
    → (o' ≡ Ordering.lt → p' ≡ Ordering.lt → q' ≡ Ordering.lt)
    → then o o' ≡ Ordering.lt
    → then p p' ≡ Ordering.lt
    → then q q' ≡ Ordering.lt
then_trans Ordering.lt Ordering.lt q o' p' q' both left right rest g h = rw (both refl refl) refl
then_trans Ordering.lt Ordering.eq q o' p' q' both left right rest g h = rw (right refl) refl
then_trans Ordering.lt Ordering.gt q o' p' q' both left right rest g h = cc
then_trans Ordering.eq Ordering.lt q o' p' q' both left right rest g h = rw (left refl) refl
then_trans Ordering.eq Ordering.eq q o' p' q' both left right rest g h = rw (left refl) (rest g h)
then_trans Ordering.eq Ordering.gt q o' p' q' both left right rest g h = cc
then_trans Ordering.gt p q o' p' q' both left right rest g h = cc

pub text_trans :
    (s t u : String)
    → compare s t ≡ Ordering.lt
    → compare t u ≡ Ordering.lt
    → compare s u ≡ Ordering.lt
text_trans s String.[] String.[] g h = cc
text_trans s (String.◌∷◌ d t) String.[] g h = cc (sym (compare.cons-nil d t) ∙ h)
text_trans String.[] String.[] u g h = cc
text_trans (String.◌∷◌ c s) String.[] u g h = cc (sym (compare.cons-nil c s) ∙ g)
text_trans String.[] (String.◌∷◌ d t) (String.◌∷◌ e u) g h = compare.nil-cons e u
text_trans (String.◌∷◌ c s) (String.◌∷◌ d t) (String.◌∷◌ e u) g h =
    compare.cons-cons c e s u
    ∙ then_trans (compare_ℕ (code c) (code d)) (compare_ℕ (code d) (code e))
        (compare_ℕ (code c) (code e)) (compare s t) (compare t u) (compare s u)
        (number_trans (code c) (code d) (code e))
        (λ same. ap (λ k. compare_ℕ k (code e)) (number_eq (code c) (code d) same))
        (λ same. ap (compare_ℕ (code c)) (sym (number_eq (code d) (code e) same)))
        (text_trans s t u) (sym (compare.cons-cons c d s t) ∙ g)
        (sym (compare.cons-cons d e t u) ∙ h)

instance abbrev pub ordered_number : Ordered ℕ
ordered_number = record {
  compared = compare_ℕ;
  compared_flip = number_flip;
  compared_trans = number_trans;
  compared_eq = number_eq;
}

instance abbrev pub ordered_text : Ordered String
ordered_text = record {
  compared = compare;
  compared_flip = text_flip;
  compared_trans = text_trans;
  compared_eq = path_by_compare;
}

-- Tuples: the first components decide, and where they are the same the rest.
module _ {ℓ κ} {A : Type ℓ} {B : Type κ} ⦃a : Ordered A⦄ ⦃b : Ordered B⦄ where
  abbrev pub tuple_compare : A × B → A × B → Ordering
  tuple_compare (x, y) (x', y') = then (a.compared x x') (b.compared y y')

  pub tuple_flip : (p q : A × B) → tuple_compare q p ≡ flip (tuple_compare p q)
  tuple_flip (x, y) (x', y') =
      ap (λ o. then o (b.compared y' y)) (a.compared_flip x x')
      ∙ ap (then (flip (a.compared x x'))) (b.compared_flip y y')
      ∙ sym (flip-then (a.compared x x') (b.compared y y'))

  pub tuple_trans :
      (p q r : A × B)
      → tuple_compare p q ≡ Ordering.lt
      → tuple_compare q r ≡ Ordering.lt
      → tuple_compare p r ≡ Ordering.lt
  tuple_trans (x, y) (x', y') (x'', y'') g h =
      then_trans (a.compared x x') (a.compared x' x'') (a.compared x x'') (b.compared y y')
        (b.compared y' y'') (b.compared y y'') (a.compared_trans x x' x'')
        (λ same. ap (λ k. a.compared k x'') (a.compared_eq x x' same))
        (λ same. ap (a.compared x) (sym (a.compared_eq x' x'' same))) (b.compared_trans y y' y'') g
        h

  pub tuple_eq : (p q : A × B) → tuple_compare p q ≡ Ordering.eq → p ≡ q
  tuple_eq (x, y) (x', y') h =
      λ i. (a.compared_eq x x' (both_eq _ _ h).0 i, b.compared_eq y y' (both_eq _ _ h).1 i)

  instance abbrev pub ordered_tuple : Ordered (A × B)
  ordered_tuple = record {
    compared = tuple_compare;
    compared_flip = tuple_flip;
    compared_trans = tuple_trans;
    compared_eq = tuple_eq;
  }

-- None before every value.
module _ {ℓ} {A : Type ℓ} ⦃a : Ordered A⦄ where
  abbrev pub opt_compare : Option A → Option A → Ordering
  opt_compare none none = Ordering.eq
  opt_compare none (some y) = Ordering.lt
  opt_compare (some x) none = Ordering.gt
  opt_compare (some x) (some y) = a.compared x y

  pub opt_flip : (x y : Option A) → opt_compare y x ≡ flip (opt_compare x y)
  opt_flip none none = refl
  opt_flip none (some y) = refl
  opt_flip (some x) none = refl
  opt_flip (some x) (some y) = a.compared_flip x y

  pub opt_trans :
      (x y z : Option A)
      → opt_compare x y ≡ Ordering.lt
      → opt_compare y z ≡ Ordering.lt
      → opt_compare x z ≡ Ordering.lt
  opt_trans x none none g h = cc
  opt_trans x (some y) none g h = cc
  opt_trans none none (some z) g h = refl
  opt_trans (some x) none (some z) g h = cc
  opt_trans none (some y) (some z) g h = refl
  opt_trans (some x) (some y) (some z) g h = a.compared_trans x y z g h

  pub opt_compare_eq : (x y : Option A) → opt_compare x y ≡ Ordering.eq → x ≡ y
  opt_compare_eq none none h = refl
  opt_compare_eq none (some y) h = cc
  opt_compare_eq (some x) none h = cc
  opt_compare_eq (some x) (some y) h = ap some (a.compared_eq x y h)

  instance abbrev pub ordered_option : Ordered (Option A)
  ordered_option = record {
    compared = opt_compare;
    compared_flip = opt_flip;
    compared_trans = opt_trans;
    compared_eq = opt_compare_eq;
  }

-- Signed numbers.
abbrev pub integer_compare : ℤ → ℤ → Ordering
integer_compare (pos m) (pos n) = compare_ℕ m n
integer_compare (pos m) (negsuc n) = Ordering.gt
integer_compare (negsuc m) (pos n) = Ordering.lt
integer_compare (negsuc m) (negsuc n) = compare_ℕ n m

pub integer_flip : (m n : ℤ) → integer_compare n m ≡ flip (integer_compare m n)
integer_flip (pos m) (pos n) = number_flip m n
integer_flip (pos m) (negsuc n) = refl
integer_flip (negsuc m) (pos n) = refl
integer_flip (negsuc m) (negsuc n) = number_flip n m

pub integer_trans :
    (m n k : ℤ)
    → integer_compare m n ≡ Ordering.lt
    → integer_compare n k ≡ Ordering.lt
    → integer_compare m k ≡ Ordering.lt
integer_trans (pos m) (pos n) (pos k) g h = number_trans m n k g h
integer_trans (pos m) (pos n) (negsuc k) g h = cc
integer_trans (pos m) (negsuc n) k g h = cc
integer_trans (negsuc m) n (pos k) g h = refl
integer_trans (negsuc m) (pos n) (negsuc k) g h = cc
integer_trans (negsuc m) (negsuc n) (negsuc k) g h = number_trans k n m h g

pub integer_eq : (m n : ℤ) → integer_compare m n ≡ Ordering.eq → m ≡ n
integer_eq (pos m) (pos n) h = ap pos (number_eq m n h)
integer_eq (pos m) (negsuc n) h = cc
integer_eq (negsuc m) (pos n) h = cc
integer_eq (negsuc m) (negsuc n) h = ap negsuc (sym (number_eq n m h))

instance abbrev pub ordered_integer : Ordered ℤ
ordered_integer = record {
  compared = integer_compare;
  compared_flip = integer_flip;
  compared_trans = integer_trans;
  compared_eq = integer_eq;
}
