-- ===== src/Prelude/Distinct.antt =====
-- Lists of texts as sets: lists in which no text stands twice.
use mathlib.Core.Path.{◌≡◌, refl, ap}
use mathlib.Core.Logic.{inl, inr}
use mathlib.Core.Bool.{true, false, not, ◌&&◌, ◌||◌}
use mathlib.Core.Option.{Option, none, some}
use mathlib.Core.List.{List, [], ◌∷◌}
use native.Mathlib.Omega.{arith}
use text.Mathlib.Text.{◌==◌}
use text.Mathlib.TextEquality.{eq_iff}
use Prim.Native.String.{String}
use skcoord.Prelude.Tests.{Bool-cases, if◌then◌else◌}
use skcoord.Prelude.Lists.{append_one, keep_if}
use skcoord.Prelude.Text.{contains, opt_eq}
use skcoord.Prelude.Dicts.{put, look_up, discard}

abbrev pub IsDistinct : List String → Type 0
IsDistinct [] = Unit
IsDistinct (x ∷ xs) = (contains x xs ≡ false) × IsDistinct xs

pub contains-append_one :
    (x y : String) (xs : List String) → contains x (append_one xs y) ≡ (contains x xs || x == y)
contains-append_one x y [] = ground arith
contains-append_one x y (z ∷ xs) = ground (arith, contains-append_one x y xs)

pub append_one-IsDistinct :
    (x : String) (xs : List String)
    → contains x xs ≡ false
    → IsDistinct xs
    → IsDistinct (append_one xs x)
append_one-IsDistinct x [] h d = (refl, tt)
append_one-IsDistinct x (y ∷ xs) h (fresh, d) = (
  ground (arith, contains-append_one y x xs, eq_iff x y, eq_iff y x),
  append_one-IsDistinct x xs (ground arith) d,
)

-- Which texts are left behind `remove`.
pub contains-discard :
    (x y : String) (xs : List String)
    → IsDistinct xs
    → contains y (discard x xs) ≡ (contains y xs && not (x == y))
unfolding discard
contains-discard x y [] d = refl
contains-discard x y (z ∷ xs) (fresh, d) =
    ground (arith, contains-discard x y xs d, eq_iff z x, eq_iff y z, eq_iff x y)

pub discard-IsDistinct : (x : String) (xs : List String) → IsDistinct xs → IsDistinct (discard x xs)
unfolding discard
discard-IsDistinct x [] d = tt
discard-IsDistinct x (y ∷ xs) (fresh, d) = elim (Bool-cases (y == x)) [
  | inl same ↦ rw same d
  | inr other ↦ rw other (ground (arith, contains-discard x y xs d), discard-IsDistinct x xs d)
]

-- Which texts are left behind a filter that drops one.
pub contains-keep_if :
    (x y : String) (xs : List String)
    → contains y (keep_if (λ z. not (z == x)) xs) ≡ (contains y xs && not (y == x))
contains-keep_if x y [] = refl
contains-keep_if x y (z ∷ xs) = ground (arith, contains-keep_if x y xs, eq_iff y z, eq_iff z x)

pub keep_if-IsDistinct :
    (x : String) (xs : List String) → IsDistinct xs → IsDistinct (keep_if (λ z. not (z == x)) xs)
keep_if-IsDistinct x [] d = tt
keep_if-IsDistinct x (z ∷ xs) (fresh, d) = elim (Bool-cases (z == x)) [
  | inl same ↦ rw same (keep_if-IsDistinct x xs d)
  | inr other ↦ rw other (ground (arith, contains-keep_if x z xs), keep_if-IsDistinct x xs d)
]

-- Equality of two texts that may be None.
pub opt_eq_comm : (a b : Option String) → opt_eq a b ≡ opt_eq b a
opt_eq_comm none none = refl
opt_eq_comm none (some b) = refl
opt_eq_comm (some a) none = refl
opt_eq_comm (some a) (some b) = ground (arith, eq_iff a b, eq_iff b a)

pub eq_of_opt_eq : (a b : Option String) → opt_eq a b ≡ true → a ≡ b
eq_of_opt_eq none none h = refl
eq_of_opt_eq none (some b) h = cc
eq_of_opt_eq (some a) none h = cc
eq_of_opt_eq (some a) (some b) h = ap some ((eq_iff a b).0 h)

pub opt_eq_refl : (a : Option String) → opt_eq a a ≡ true
opt_eq_refl none = refl
opt_eq_refl (some a) = (eq_iff a a).1 refl

pub look_up-put {ℓ} :
    {V : Type ℓ} (key other : String) (v : V) (d : List (String × V))
    → look_up other (put key v d) ≡ (if key == other then some v else look_up other d)
unfolding look_up put
look_up-put key other v [] = refl
look_up-put key other v ((k, w) ∷ d) =
    ground (arith, look_up-put key other v d, eq_iff k key, eq_iff key other, eq_iff k other)
