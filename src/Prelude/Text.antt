-- ===== src/Prelude/Text.antt =====
-- Python's texts: membership in a list of texts, `strip`, `join`, and the order of texts.
use Prim.Native.Nat.{ℕ, Ordering}
use Prim.Native.Char.{code}
use Prim.Native.String.{String, compare, ◌++◌ as ◌⧺◌}
use mathlib.Core.Bool.{Bool, true, false, not, ◌&&◌, ◌||◌}
use mathlib.Core.Option.{Option, none, some}
use mathlib.Core.List.{List, [], ◌∷◌}
use skcoord.Prelude.Tests.{leb, if◌then◌else◌}
use text.Mathlib.Text.{◌==◌}

-- x in xs
abbrev pub contains : String → List String → Bool
contains x [] = false
contains x (y ∷ ys) = x == y || contains x ys

-- bool(text)
abbrev pub truthy : String → Bool
truthy s = not (s == "")

-- bool(value) of a value that may be None
abbrev pub is_set : Option String → Bool
is_set none = false
is_set (some s) = truthy s

abbrev pub is_some {ℓ} : {A : Type ℓ} → Option A → Bool
is_some none = false
is_some (some a) = true

-- a == b of two values that may be None
abbrev pub opt_eq : Option String → Option String → Bool
opt_eq none none = true
opt_eq none (some b) = false
opt_eq (some a) none = false
opt_eq (some a) (some b) = a == b

-- text or default
abbrev pub or_else : String → String → String
or_else s d = if truthy s then s else d

-- An f-string: its pieces, joined.
unfoldable pub concat : List String → String
concat [] = ""
concat (s ∷ ss) = s ⧺ concat ss

-- sep.join(texts)
pub join : String → List String → String
join sep [] = ""
join sep (s ∷ []) = s
join sep (s ∷ t ∷ ts) = s ⧺ (sep ⧺ join sep (t ∷ ts))

-- How an f-string prints a value that may be None.
abbrev pub py_str : Option String → String
py_str none = "None"
py_str (some s) = s

-- str.isspace of one character, by its code point
is_space : ℕ → Bool
is_space c =
    (leb 9 c && leb c 13)
    || (leb 28 c && leb c 32)
    || leb 133 c && leb c 133
    || leb 160 c && leb c 160
    || leb 5760 c && leb c 5760
    || (leb 8192 c && leb c 8202)
    || (leb 8232 c && leb c 8233)
    || leb 8239 c && leb c 8239
    || leb 8287 c && leb c 8287
    || leb 12288 c && leb c 12288

-- not text.strip()
unfoldable pub is_blank : String → Bool
unfolding is_space
is_blank String.[] = true
is_blank (String.◌∷◌ c s) = is_space (code c) && is_blank s

-- max(texts) of a first text and the rest: the first of the greatest by code points
unfoldable pub max_text : String → List String → String
max_text best [] = best
max_text best (t ∷ ts) = max_text (elim (compare best t) [ Ordering.lt ↦ t | _ ↦ best ]) ts
