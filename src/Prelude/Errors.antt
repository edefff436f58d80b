-- ===== src/Prelude/Errors.antt =====
-- The exceptions that the modelled code raises, as values.
use Prim.Native.String.{String}
use mathlib.Core.Path.{◌≡◌, refl}
use mathlib.Core.Bool.{Bool, true, false}
use mathlib.Core.List.{List, [], ◌∷◌}

pub data Error : Type 0 where
  key_error value_error type_error attribute_error overflow_error : String → Error

-- What a call leaves behind: it raised, or it returned a value.
pub data Result (Value : Type 0) : Type 0 where
  err : (raised : Error) → Result Value
  ok : (value : Value) → Result Value

abbrev pub is_ok : {Value : Type 0} → Result Value → Bool
is_ok (err raised) = false
is_ok (ok value) = true

module _ {Value Next : Type 0} where
  infixl 5 ◌>>=◌
  -- The rest of the code runs where nothing was raised.
  abbrev pub ◌>>=◌ : Result Value → (Value → Result Next) → Result Next
  err raised >>= rest = err raised
  ok value >>= rest = rest value

  pub >>=-eq-ok :
      (call : Result Value) (rest : Value → Result Next) {final : Next}
      → (call >>= rest) ≡ ok final
      → (value : Value) × (call ≡ ok value) × (rest value ≡ ok final)
  >>=-eq-ok (err raised) rest h = cc
  >>=-eq-ok (ok value) rest h = (value, refl, h)

module _ {Next : Type 0} where
  infixl 5 ◌>>◌
  abbrev pub ◌>>◌ : Result (Unit {0}) → Result Next → Result Next
  check >> rest = check >>= λ _. rest

-- if not holds: raise ValueError(message)
abbrev pub demand : Bool → String → Result (Unit {0})
demand true message = ok tt
demand false message = err (Error.value_error message)

module _ {A B : Type 0} where
  -- The call on each entry, from the first; the first one that raises ends it.
  unfoldable pub each : (A → Result B) → List A → Result (List B)
  each call [] = ok []
  each call (x ∷ l) = do y ← call x; ys ← each call l; ok (y ∷ ys)
