-- ===== src/Ledger/Bounds.antt =====
-- src/skcoord/coordination.py: the memory of runs keeps one entry for each key, and ten at most.
use skcoord.Prelude.{
  ℕ, zero, suc, ◌-◌, ◌≤◌, String, ◌≡◌, refl, sym, ap, ◌∙◌, subst, Bool, true, false, ◌⊎◌, inl, inr,
  Option, none, some, List, [], ◌∷◌, arith, ltb, length, any_of, Bool-cases, if◌then◌else◌,
}
use skcoord.Ledger.Model.{
  Keyed, upsert, entry_of, drop, capped, remember, Attempt, keyed_attempt, Autopilot,
  record_attempt, clear_attempts, Success, Score, record_success, score_task, keyed_success,
  keyed_score,
}

module _ {A : Type 0} ⦃k : Keyed A⦄ where
  -- No two entries have the same key.
  abbrev pub IsKeyed : List A → Type 0
  IsKeyed [] = Unit
  IsKeyed (x ∷ l) = (any_of (k.same x) l ≡ false) × IsKeyed l

  pub same_sym : (x y : A) → k.same x y ≡ true → k.same y x ≡ true
  same_sym x y h = sym (k.same_class x y x h) ∙ k.same_refl x

  none_same : (x y : A) (l : List A) → k.same x y ≡ true → any_of (k.same x) l ≡ any_of (k.same y) l
  none_same x y [] h = refl
  none_same x y (z ∷ l) h = rw (k.same_class x y z h, none_same x y l h) refl

  upsert-other :
      (x e : A) (l : List A)
      → k.same x e ≡ false
      → any_of (k.same x) l ≡ false
      → any_of (k.same x) (upsert e l) ≡ false
  unfolding upsert
  upsert-other x e [] h u = ground arith
  upsert-other x e (y ∷ l) h u = ground (arith, upsert-other x e l h)

  upsert-IsKeyed : (e : A) (l : List A) → IsKeyed l → IsKeyed (upsert e l)
  unfolding upsert
  upsert-IsKeyed e [] u = (refl, tt)
  upsert-IsKeyed e (x ∷ l) (new, u) = elim (Bool-cases (k.same x e)) [
    | inl same ↦ rw same (sym (none_same x e l same) ∙ new, u)
    | inr other ↦ rw other (upsert-other x e l other new, upsert-IsKeyed e l u)
  ]

  -- The entry is replaced, or it is the first of its key and is appended.
  upsert-length :
      (e : A) (l : List A)
      → (length (upsert e l) ≡ length l)
        ⊎ (length (upsert e l) ≡ suc (length l)) × (entry_of e l ≡ none)
  unfolding upsert entry_of
  upsert-length e [] = inr (refl, refl)
  upsert-length e (x ∷ l) = ground (arith, upsert-length e l)

  upsert-entry_of : (e : A) (l : List A) → entry_of e (upsert e l) ≡ some e
  unfolding upsert entry_of
  upsert-entry_of e [] = rw (k.same_refl e) refl
  upsert-entry_of e (x ∷ l) = ground (arith, upsert-entry_of e l, k.same_refl e)

module _ {A : Type 0} where
  length-drop : (n : ℕ) (l : List A) → length (drop n l) ≡ length l - n
  unfolding drop
  length-drop zero l = ground arith
  length-drop (suc n) [] = ground arith
  length-drop (suc n) (x ∷ l) = length-drop n l ∙ omega arith

  any_of-drop :
      (test : A → Bool) (n : ℕ) (l : List A)
      → any_of test l ≡ false
      → any_of test (drop n l) ≡ false
  unfolding drop
  any_of-drop test zero l h = h
  any_of-drop test (suc n) [] h = h
  any_of-drop test (suc n) (x ∷ l) h = any_of-drop test n l (ground arith)

  pub capped-length : (l : List A) → length (capped l) ≤ 10
  unfolding capped
  capped-length l = elim (Bool-cases (ltb 10 (length l))) [
    | inl many ↦
        subst (λ (b : Bool). length (if b then drop (length l - 10) l else l) ≤ 10) (sym many)
          (subst (λ n. n ≤ 10) (sym (length-drop (length l - 10) l)) (ground arith))
    | inr few ↦
        subst (λ (b : Bool). length (if b then drop (length l - 10) l else l) ≤ 10) (sym few)
          (ground arith)
  ]

  -- A list within the cap stays as it is, and one that is over it by an entry loses its first.
  pub capped_short : (l : List A) → length l ≤ 10 → capped l ≡ l
  unfolding capped
  capped_short l h = ground arith

  pub capped_long : (x : A) (l : List A) → length l ≡ 10 → capped (x ∷ l) ≡ l
  unfolding capped drop
  capped_long x l h = rw h refl

module _ {A : Type 0} ⦃k : Keyed A⦄ where
  drop-IsKeyed : (n : ℕ) (l : List A) → IsKeyed l → IsKeyed (drop n l)
  unfolding drop
  drop-IsKeyed zero l u = u
  drop-IsKeyed (suc n) [] u = tt
  drop-IsKeyed (suc n) (x ∷ l) (new, u) = drop-IsKeyed n l u

  capped-IsKeyed : (l : List A) → IsKeyed l → IsKeyed (capped l)
  unfolding capped
  capped-IsKeyed l u = elim (Bool-cases (ltb 10 (length l))) [
    | inl many ↦ rw many (drop-IsKeyed (length l - 10) l u)
    | inr few ↦ rw few u
  ]

  -- One entry for each key, and ten at most.
  pub record IsMemory (l : List A) : Type 0 where
    pub keyed : IsKeyed l
    pub bounded : length l ≤ 10

  pub remember-IsMemory : (e : A) (l : List A) → IsKeyed l → IsMemory (remember e l)
  unfolding remember
  remember-IsMemory e l u = record {
    keyed = capped-IsKeyed (upsert e l) (upsert-IsKeyed e l u);
    bounded = capped-length (upsert e l);
  }

  absent_head : (e x : A) (l : List A) → entry_of e (x ∷ l) ≡ none → k.same x e ≡ false
  unfolding entry_of
  absent_head e x l h = ground arith

  pub upsert_past : (e x : A) (l : List A) → k.same x e ≡ false → upsert e (x ∷ l) ≡ x ∷ upsert e l
  unfolding upsert
  upsert_past e x l h = rw h refl

  -- The first entry is dropped.
  abbrev pub Drops : A → List A → Type 0
  Drops e l =
      (x : A) × (l' : List A) × (l ≡ x ∷ l')
      × (suc (length l') ≤ 10)
      × (k.same x e ≡ false)
      × (remember e l ≡ upsert e l')
      × (length (upsert e l') ≡ 10)

  dropped :
      (e x : A) (l : List A)
      → length (x ∷ l) ≡ 10
      → length (upsert e (x ∷ l)) ≡ 11
      → k.same x e ≡ false
      → Drops e (x ∷ l)
  unfolding remember
  dropped e x l h long other =
      let past = upsert_past e x l other in
      let full = subst (λ r. length r ≡ 11) past long in
      (
        x,
        l,
        refl,
        omega arith,
        other,
        ap (λ r. capped r) past ∙ capped_long x (upsert e l) (omega arith),
        omega arith,
      )

  -- Within the cap, an entry is put in, or put in behind the first, which is dropped.
  pub remember_cases :
      (e : A) (l : List A) → length l ≤ 10 → (remember e l ≡ upsert e l) ⊎ Drops e l
  unfolding remember
  remember_cases e l h = elim (upsert-length e l) [
    | inl kept ↦ inl (capped_short (upsert e l) (omega arith))
    | inr (grown, absent) ↦ elim (Bool-cases (ltb (length l) 10)) [
      | inl room ↦ inl (capped_short (upsert e l) (ground arith))
      | inr full ↦ inr (over l (ground arith) (ground arith) absent)
    ]
  ]
    where
      over :
          (l : List A) → length l ≡ 10 → length (upsert e l) ≡ 11 → entry_of e l ≡ none → Drops e l
      over [] n m absent = absurd (omega arith)
      over (x ∷ l) n m absent = dropped e x l n m (absent_head e x l absent)

  -- What is remembered is there, where the list was within the cap.
  pub remember-entry_of : (e : A) (l : List A) → length l ≤ 10 → entry_of e (remember e l) ≡ some e
  remember-entry_of e l h = elim (remember_cases e l h) [
    | inl put ↦ subst (λ r. entry_of e r ≡ some e) (sym put) (upsert-entry_of e l)
    | inr (x, l', p, n, other, put, full) ↦
        subst (λ r. entry_of e r ≡ some e) (sym put) (upsert-entry_of e l')
  ]

-- The memory of a task, and the changes that the board makes to it.
pub record IsBounded (ap : Autopilot) : Type 0 where
  pub scored : IsKeyed ap.scores
  pub tried : IsMemory ap.attempts
  pub passed : IsMemory ap.successes

pub data Kept (ap : Autopilot) : Autopilot → Type 0 where
  starts : Kept ap ap
  scores_it :
      {b : Autopilot} (e : Score) (phase ref : Option String)
      → Kept ap b
      → Kept ap (score_task e phase ref b)
  fails : {b : Autopilot} (e : Attempt) → Kept ap b → Kept ap (record_attempt e b)
  clears : {b : Autopilot} → Kept ap b → Kept ap (clear_attempts b).0
  passes : {b : Autopilot} (e : Success) → Kept ap b → Kept ap (record_success e b)

abbrev pub no_memory : Autopilot
no_memory = record {
  scores = [];
  attempts = [];
  successes = [];
  phase = none;
  pr = none;
  artifact = none;
}

-- Whatever is recorded on a task and cleared, and in whatever order, it keeps one score for each round
-- and harness, and one failure and one success for each run and outcome, ten of them at most.
pub memory-IsBounded : {ap : Autopilot} → Kept no_memory ap → IsBounded ap
unfolding score_task record_attempt clear_attempts record_success
memory-IsBounded starts = record {
  scored = tt;
  tried = record { keyed = tt; bounded = omega arith };
  passed = record { keyed = tt; bounded = omega arith };
}
memory-IsBounded (scores_it {b} e phase ref past) =
    let was = memory-IsBounded past in
    record { scored = upsert-IsKeyed e b.scores was.scored; tried = was.tried; passed = was.passed }
memory-IsBounded (fails {b} e past) =
    let was = memory-IsBounded past in
    record {
      scored = was.scored;
      tried = remember-IsMemory e b.attempts was.tried.keyed;
      passed = was.passed;
    }
memory-IsBounded (clears past) =
    let was = memory-IsBounded past in
    record {
      scored = was.scored;
      tried = record { keyed = tt; bounded = omega arith };
      passed = was.passed;
    }
memory-IsBounded (passes {b} e past) =
    let was = memory-IsBounded past in
    record {
      scored = was.scored;
      tried = was.tried;
      passed = remember-IsMemory e b.successes was.passed.keyed;
    }
