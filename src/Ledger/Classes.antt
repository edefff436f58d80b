-- ===== src/Ledger/Classes.antt =====
-- src/skcoord/coordination.py: which grades `set_grade` takes, and the class that it derives.
use skcoord.Prelude.{
  ℕ, zero, suc, ◌≡◌, ◌≤◌, max, refl, String, true, Option, none, some, arith, Result, ok, err,
  value_error, contains, ◌∙◌,
}
use skcoord.Ledger.Grade.{
  size_rank, risk_rank, class_by_rank, sensitivity_values, pool_values, Grading, Grade, classed,
  ranked, set_grade,
}

size_rank-bound : (s : String) {m : ℕ} → size_rank s ≡ some m → m ≤ 3
unfolding size_rank
size_rank-bound s h = ground arith

risk_rank-bound : (s : String) {m : ℕ} → risk_rank s ≡ some m → m ≤ 3
unfolding risk_rank
risk_rank-bound s h = ground arith

-- The class of a rank is the size of that rank.
class_by_rank-bound :
    (r : ℕ) → r ≤ 3 → (c : String) × (class_by_rank r ≡ some c) × (size_rank c ≡ some r)
unfolding class_by_rank size_rank
class_by_rank-bound zero h = ("S", refl, refl)
class_by_rank-bound (suc zero) h = ("M", refl, refl)
class_by_rank-bound (suc (suc zero)) h = ("L", refl, refl)
class_by_rank-bound (suc (suc (suc zero))) h = ("XL", refl, refl)
class_by_rank-bound (suc (suc (suc (suc r)))) h = absurd (omega arith)

-- The values of the call are in their vocabularies, with these ranks.
pub record IsGradable {Float : Type 0} (q : Grading Float) (m n : ℕ) : Type 0 where
  pub sized : size_rank q.size ≡ some m
  pub risky : risk_rank q.risk ≡ some n
  pub sensitive : contains q.sensitivity sensitivity_values ≡ true
  pub pooled : contains q.pool pool_values ≡ true

module _ {Float : Type 0} (now : String) (q : Grading Float) where
  -- The grade of that class.
  abbrev pub of_class : String → Grade Float
  of_class c = record { given = q; model_class = c; graded_at = now }

  ranked_ok :
      (m n : ℕ)
      → contains q.sensitivity sensitivity_values ≡ true
      → contains q.pool pool_values ≡ true
      → ranked now q m n ≡ classed now q m n
  unfolding ranked
  ranked_ok m n a b = ground arith

  graded_class :
      (m n : ℕ) {c : String}
      → class_by_rank (max m n) ≡ some c
      → classed now q m n ≡ ok (of_class c)
  unfolding classed
  graded_class m n h = rw (classed, h) refl

  vocabulary_of :
      (m n : ℕ) {g : Grade Float}
      → ranked now q m n ≡ ok g
      → (contains q.sensitivity sensitivity_values ≡ true) × (contains q.pool pool_values ≡ true)
  unfolding ranked
  vocabulary_of m n h = (ground arith, ground arith)

  -- What is not in its vocabulary is not taken.
  pub set_grade-IsGradable :
      {g : Grade Float} → set_grade now q ≡ ok g → (m : ℕ) × (n : ℕ) × IsGradable q m n
  unfolding set_grade
  set_grade-IsGradable {g} h = sized (size_rank q.size) refl h
    where
      risky :
          (m : ℕ) (o : Option ℕ)
          → size_rank q.size ≡ some m
          → risk_rank q.risk ≡ o
          → elim o as (λ _. Result (Grade Float)) [
            | none ↦ err (value_error "invalid risk")
            | some n ↦ ranked now q m n
          ]
            ≡ ok g
          → (m : ℕ) × (n : ℕ) × IsGradable q m n
      risky m none a b k = cc
      risky m (some n) a b k =
          let (c, d) = vocabulary_of m n k in
          (m, n, record { sized = a; risky = b; sensitive = c; pooled = d })

      sized :
          (o : Option ℕ)
          → size_rank q.size ≡ o
          → elim o as (λ _. Result (Grade Float)) [
            | none ↦ err (value_error "invalid size")
            | some m ↦ elim (risk_rank q.risk) [
              | none ↦ err (value_error "invalid risk")
              | some n ↦ ranked now q m n
            ]
          ]
            ≡ ok g
          → (m : ℕ) × (n : ℕ) × IsGradable q m n
      sized none a k = cc
      sized (some m) a k = risky m (risk_rank q.risk) a refl k

  set_grade_ranked : (m n : ℕ) → IsGradable q m n → set_grade now q ≡ classed now q m n
  unfolding set_grade
  set_grade_ranked m n k = rw (set_grade, k.sized, k.risky) (ranked_ok m n k.sensitive k.pooled)

-- A call whose values are in their vocabularies is taken. The grade has those values, the call's time,
-- and as its class the size whose rank is the higher of the ranks of size and risk.
pub set_grade_class :
    {Float : Type 0} (now : String) (q : Grading Float) (m n : ℕ)
    → IsGradable q m n
    → (c : String) × (size_rank c ≡ some (max m n)) × (set_grade now q ≡ ok (of_class now q c))
set_grade_class now q m n k =
    let m_le = size_rank-bound q.size k.sized in
    let n_le = risk_rank-bound q.risk k.risky in
    let (c, found, ranked) = class_by_rank-bound (max m n) (ground arith) in
    (c, ranked, set_grade_ranked now q m n k ∙ graded_class now q m n found)
