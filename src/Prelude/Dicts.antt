-- ===== src/Prelude/Dicts.antt =====
-- Python's dicts with text keys, as association lists, and `list.remove`.
use Prim.Native.String.{String}
use mathlib.Core.Option.{Option, none, some}
use mathlib.Core.List.{List, [], ◌∷◌}
use skcoord.Prelude.Tests.{if◌then◌else◌}
use text.Mathlib.Text.{◌==◌}

module _ {ℓ} {V : Type ℓ} where
  -- d[key] = value
  unfoldable pub put : String → V → List (String × V) → List (String × V)
  put key value [] = (key, value) ∷ []
  put key value ((k, v) ∷ d) = if k == key then (key, value) ∷ d else (k, v) ∷ put key value d

  -- d.get(key)
  unfoldable pub look_up : String → List (String × V) → Option V
  look_up key [] = none
  look_up key ((k, v) ∷ d) = if k == key then some v else look_up key d

-- if x in xs: xs.remove(x)
unfoldable pub discard : String → List String → List String
discard x [] = []
discard x (y ∷ ys) = if y == x then ys else y ∷ discard x ys
