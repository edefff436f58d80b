-- ===== src/Ledger/Grade.antt =====
-- src/skcoord/coordination.py: `set_grade`, with the vocabulary of a grade. A float is of any type.
use skcoord.Prelude.{
  ℕ, zero, suc, max, String, not, Option, none, some, List, [], ◌∷◌, ◌==◌, if◌then◌else◌, Result,
  ok, err, value_error, key_error, ℤ, contains,
}

-- _GRADE_SIZE_RANK, _GRADE_RISK_RANK and _GRADE_CLASS_BY_RANK
unfoldable pub size_rank : String → Option ℕ
size_rank size =
    if size == "S"
    then some 0
    else if size == "M"
    then some 1
    else if size == "L"
    then some 2
    else if size == "XL"
    then some 3
    else none

unfoldable pub risk_rank : String → Option ℕ
risk_rank risk =
    if risk == "low"
    then some 0
    else if risk == "med"
    then some 1
    else if risk == "high"
    then some 2
    else if risk == "crit"
    then some 3
    else none

unfoldable pub class_by_rank : ℕ → Option String
class_by_rank zero = some "S"
class_by_rank (suc zero) = some "M"
class_by_rank (suc (suc zero)) = some "L"
class_by_rank (suc (suc (suc zero))) = some "XL"
class_by_rank (suc (suc (suc (suc rank)))) = none

abbrev pub sensitivity_values : List String
sensitivity_values = "public" ∷ "internal" ∷ "secret" ∷ []

abbrev pub pool_values : List String
pool_values = "private" ∷ "public" ∷ []

-- The arguments of a call, and the block that it writes as meta.grade, in place of the one before.
pub record Grading (Float : Type 0) : Type 0 where
  pub size : String
  pub risk : String
  pub sensitivity : String
  pub joule_estimate : Option ℤ
  pub joule_bounty : Option ℤ
  pub graded_by : String
  pub grader_model : String
  pub rubric_version : ℤ
  pub confidence : Option Float
  pub pool : String
  pub session_id : Option String
  pub node : Option String

pub record Grade (Float : Type 0) : Type 0 where
  pub given : Grading Float
  pub model_class : String
  pub graded_at : String

module _ {Float : Type 0} where
  -- The grade behind the checks of the vocabularies.
  unfoldable pub classed : String → Grading Float → ℕ → ℕ → Result (Grade Float)
  classed now q m n = elim (class_by_rank (max m n)) [
    | none ↦ err (key_error "_GRADE_CLASS_BY_RANK")
    | some c ↦ ok (record { given = q; model_class = c; graded_at = now })
  ]

  unfoldable pub ranked : String → Grading Float → ℕ → ℕ → Result (Grade Float)
  unfolding classed
  ranked now q m n =
      if not (contains q.sensitivity sensitivity_values)
      then err (value_error "invalid sensitivity")
      else if not (contains q.pool pool_values)
      then err (value_error "invalid pool")
      else classed now q m n

  unfoldable pub set_grade : String → Grading Float → Result (Grade Float)
  unfolding ranked
  set_grade now q = elim (size_rank q.size) [
    | none ↦ err (value_error "invalid size")
    | some m ↦ elim (risk_rank q.risk) [
      | none ↦ err (value_error "invalid risk")
      | some n ↦ ranked now q m n
    ]
  ]
