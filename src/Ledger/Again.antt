-- ===== src/Ledger/Again.antt =====
-- src/skcoord/coordination.py: what is recorded twice on a task is recorded once.
use skcoord.Prelude.{
  suc, ◌≤◌, ◌≡◌, refl, sym, ap, ◌∙◌, true, false, inl, inr, some, List, [], ◌∷◌, arith, length,
  Bool-cases,
}
use skcoord.Ledger.Model.{
  Keyed, upsert, entry_of, capped, remember, Attempt, keyed_attempt, Autopilot, record_attempt,
}
use skcoord.Ledger.Bounds.{
  same_sym, capped_short, capped_long, upsert_past, remember_cases, remember-entry_of, IsMemory,
}

module _ {A : Type 0} ⦃k : Keyed A⦄ where
  other_class : (x e d : A) → k.same e d ≡ true → k.same x e ≡ false → k.same x d ≡ false
  other_class x e d h other =
      ground (arith, k.same_class x d e, same_sym e d, same_sym x e, k.same_class x e d)

  -- The later of two entries of a key replaces the earlier.
  upsert_twice : (e d : A) (l : List A) → k.same e d ≡ true → upsert d (upsert e l) ≡ upsert d l
  unfolding upsert
  upsert_twice e d [] h = rw h refl
  upsert_twice e d (x ∷ l) h = elim (Bool-cases (k.same x e)) [
    | inl same ↦ rw (same, k.same_class x e d same, h) refl
    | inr other ↦ rw (other, other_class x e d h other) (ap (λ r. x ∷ r) (upsert_twice e d l h))
  ]

  upsert_class :
      (e d : A) (l : List A) → k.same e d ≡ true → length (upsert d l) ≡ length (upsert e l)
  unfolding upsert
  upsert_class e d [] h = refl
  upsert_class e d (x ∷ l) h = elim (Bool-cases (k.same x e)) [
    | inl same ↦ rw (same, k.same_class x e d same, h) refl
    | inr other ↦ rw (other, other_class x e d h other) (ap suc (upsert_class e d l h))
  ]

  -- Remembering an entry, and then another of its key, is remembering the other.
  remember_twice :
      (e d : A) (l : List A)
      → length l ≤ 10
      → k.same e d ≡ true
      → remember d (remember e l) ≡ remember d l
  unfolding remember
  remember_twice e d l h same = elim (remember_cases e l h) [
    | inl put ↦ ap (λ r. remember d r) put ∙ ap (λ r. capped r) (upsert_twice e d l same)
    | inr (x, l', p, n, other, put, full) ↦
        let long = upsert_class e d l' same ∙ full in
        ap (λ r. remember d r) put
        ∙ ap (λ r. capped r) (upsert_twice e d l' same)
        ∙ capped_short (upsert d l') (ground arith)
        ∙ sym (capped_long x (upsert d l') long)
        ∙ ap (λ r. capped r) (sym (upsert_past d x l' (other_class x e d same other)))
        ∙ ap (λ r. remember d r) (sym p)
  ]

-- A failure that is recorded again, of the same run and outcome, is recorded as if for the first time,
-- and the later entry is the one that the memory has for its run and outcome.
pub record_attempt_twice :
    (e d : Attempt) (a : Autopilot)
    → IsMemory a.attempts
    → keyed_attempt.same e d ≡ true
    → (record_attempt d (record_attempt e a) ≡ record_attempt d a)
      × (entry_of d (record_attempt d a).attempts ≡ some d)
unfolding record_attempt
record_attempt_twice e d a within same = (
  ap (λ l. record a { attempts = l }) (remember_twice e d a.attempts within.bounded same),
  remember-entry_of d a.attempts within.bounded,
)
