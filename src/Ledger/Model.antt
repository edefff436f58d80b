-- ===== src/Ledger/Model.antt =====
-- src/skcoord/coordination.py: the memory of a task's runs, meta.autopilot: `score_task`,
-- `record_attempt`, `clear_attempts` and `record_success`, as the changes that they hand to
-- `_write_task_raw`. A list that is not there is empty.
use text.Mathlib.Text.{starts_with}
use skcoord.Prelude.{
  ℕ, zero, suc, ◌-◌, String, ◌≡◌, Bool, true, false, ◌&&◌, Option, none, some, List, [], ◌∷◌, arith,
  ◌==◌, eq_iff, ℤ, ltb, leb, length, is_set, if◌then◌else◌,
}

-- Entries with a key: two have the same key, or not.
pub record Keyed {ℓ} (A : Type ℓ) : Type ℓ where
  pub same : A → A → Bool
  pub same_refl : (x : A) → same x x ≡ true
  pub same_class : (x y z : A) → same x y ≡ true → same x z ≡ same y z

module _ {ℓ} {A : Type ℓ} ⦃k : Keyed A⦄ where
  -- The first entry of the same key is replaced, else the entry is appended.
  unfoldable pub upsert : A → List A → List A
  upsert e [] = e ∷ []
  upsert e (x ∷ l) = let rest = upsert e l in if k.same x e then e ∷ l else x ∷ rest

  -- The entry of that key.
  unfoldable pub entry_of : A → List A → Option A
  entry_of e [] = none
  entry_of e (x ∷ l) = let rest = entry_of e l in if k.same x e then some x else rest

module _ {ℓ} {A : Type ℓ} where
  -- entries[n:]
  unfoldable pub drop : ℕ → List A → List A
  drop zero l = l
  drop (suc n) [] = []
  drop (suc n) (x ∷ l) = drop n l

  -- The cap, _MAX_ATTEMPTS, on a list of entries: entries[-10:], where there are more.
  unfoldable pub capped : List A → List A
  capped l = if ltb 10 (length l) then drop (length l - 10) l else l

module _ {ℓ} {A : Type ℓ} ⦃k : Keyed A⦄ where
  unfoldable pub remember : A → List A → List A
  remember e l = capped (upsert e l)

pub record Attempt : Type 0 where
  pub run_id : String
  pub ts : String
  pub round : ℕ
  pub outcome : String
  pub tried : String
  pub why_failed : String
  pub replacement_hint : String

pub record Success : Type 0 where
  pub run_id : String
  pub ts : String
  pub round : ℕ
  pub outcome : String
  pub tried : String
  pub why_succeeded : String
  pub approach_hint : String

pub record Score : Type 0 where
  pub round : ℕ
  pub score : ℤ
  pub notes : String
  pub ts : String
  pub harness : String

abbrev pub same_number : ℕ → ℕ → Bool
same_number m n = leb m n && leb n m

-- The run and its outcome.
abbrev pub same_run : String → String → String → String → Bool
same_run run outcome run' outcome' = run == run' && outcome == outcome'

pub same_run_refl : (run outcome : String) → same_run run outcome run outcome ≡ true
same_run_refl run outcome = ground (arith, eq_iff run run, eq_iff outcome outcome)

pub same_run_class :
    (run outcome run' outcome' run'' outcome'' : String)
    → same_run run outcome run' outcome' ≡ true
    → same_run run outcome run'' outcome'' ≡ same_run run' outcome' run'' outcome''
same_run_class run outcome run' outcome' run'' outcome'' h =
    ground (arith, eq_iff run run', eq_iff outcome outcome')

instance abbrev pub keyed_attempt : Keyed Attempt
keyed_attempt = record {
  same = λ x y. same_run x.run_id x.outcome y.run_id y.outcome;
  same_refl = λ x. same_run_refl x.run_id x.outcome;
  same_class = λ x y z. same_run_class x.run_id x.outcome y.run_id y.outcome z.run_id z.outcome;
}

instance abbrev pub keyed_success : Keyed Success
keyed_success = record {
  same = λ x y. same_run x.run_id x.outcome y.run_id y.outcome;
  same_refl = λ x. same_run_refl x.run_id x.outcome;
  same_class = λ x y z. same_run_class x.run_id x.outcome y.run_id y.outcome z.run_id z.outcome;
}

-- The round and its harness.
abbrev pub same_round : Score → Score → Bool
same_round x y = same_number x.round y.round && x.harness == y.harness

pub same_round_refl : (x : Score) → same_round x x ≡ true
same_round_refl x = ground (arith, eq_iff x.harness x.harness)

pub same_round_class : (x y z : Score) → same_round x y ≡ true → same_round x z ≡ same_round y z
same_round_class x y z h = ground (arith, eq_iff x.harness y.harness)

instance abbrev pub keyed_score : Keyed Score
keyed_score = record {
  same = same_round;
  same_refl = same_round_refl;
  same_class = same_round_class;
}

-- meta.autopilot
pub record Autopilot : Type 0 where
  pub scores : List Score
  pub attempts : List Attempt
  pub successes : List Success
  pub phase : Option String
  pub pr : Option String
  pub artifact : Option String

abbrev pub set_or_kept : Option String → Option String → Option String
set_or_kept new old = if is_set new then new else old

-- ref and ref.startswith("http")
abbrev pub names_pr : Option String → Bool
names_pr none = false
names_pr (some ref) = starts_with ref "http"

unfoldable pub score_task : Score → Option String → Option String → Autopilot → Autopilot
unfolding upsert
score_task e phase ref ap = record ap {
  scores = upsert e ap.scores;
  phase = set_or_kept phase ap.phase;
  pr = if names_pr ref then set_or_kept ref ap.pr else ap.pr;
  artifact = if names_pr ref then ap.artifact else set_or_kept ref ap.artifact;
}

unfoldable pub record_attempt : Attempt → Autopilot → Autopilot
unfolding remember
record_attempt e ap = record ap { attempts = remember e ap.attempts }

-- The memory without its failures, and the failures.
unfoldable pub clear_attempts : Autopilot → Autopilot × List Attempt
clear_attempts ap = (record ap { attempts = [] }, ap.attempts)

unfoldable pub record_success : Success → Autopilot → Autopilot
unfolding remember
record_success e ap = record ap { successes = remember e ap.successes }
