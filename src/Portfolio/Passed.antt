-- ===== src/Portfolio/Passed.antt =====
-- src/skcoord/portfolio.py: tests of which none holds, and the empty set of reasons.
use skcoord.Prelude.{
  String, ◌≡◌, refl, sym, ap, ◌∙◌, inl, inr, Bool, true, false, List, [], ◌∷◌, ◌++◌, arith, All,
  Bool-cases, insert_by, sort_by, once_each, holds, sort_set, ordered_text,
}
use skcoord.Portfolio.Contracts.{is_nil}
use skcoord.Portfolio.Quality.{raised}

abbrev pub Passed : List (Bool × String) → Type 0
Passed = All (λ c. c.0 ≡ false)

pub raised_none : (checks : List (Bool × String)) → raised checks ≡ [] → Passed checks
unfolding raised
raised_none [] h = tt
raised_none ((true, code) ∷ checks) h = cc
raised_none ((false, code) ∷ checks) h = (refl, raised_none checks h)

pub none_raised : (checks : List (Bool × String)) → Passed checks → raised checks ≡ []
unfolding raised
none_raised [] p = refl
none_raised ((test, code) ∷ checks) (h, p) = rw h (none_raised checks p)

pub Passed-append : (l k : List (Bool × String)) → Passed (l ++ k) → Passed l × Passed k
Passed-append [] k p = (tt, p)
Passed-append (c ∷ l) k (first, p) =
    let (left, right) = Passed-append l k p in ((first, left), right)

insert_by_some : (x : String) (l : List String) → is_nil (insert_by (λ s. s) x l) ≡ false
unfolding insert_by
insert_by_some x [] = refl
insert_by_some x (y ∷ l) = ground arith

holds_some : (x : String) (l : List String) → holds x l ≡ true → is_nil l ≡ false
unfolding holds
holds_some x [] h = cc
holds_some x (y ∷ l) h = refl

once_each_some : (x : String) (l : List String) → is_nil (once_each (x ∷ l)) ≡ false
unfolding once_each
once_each_some x l = elim (Bool-cases (holds x (once_each l))) [
  | inl old ↦ rw old (holds_some x (once_each l) old)
  | inr new ↦ rw new refl
]

sort_list_some : (l : List String) → is_nil l ≡ false → is_nil (sort_by (λ s. s) l) ≡ false
unfolding sort_by
sort_list_some [] h = h
sort_list_some (x ∷ l) h = insert_by_some x (sort_by (λ s. s) l)

-- No text in sorted(set(texts)), no text in the texts.
pub sort_set_none : (l : List String) → sort_set l ≡ [] → l ≡ []
sort_set_none [] h = refl
sort_set_none (x ∷ l) h =
    absurd (differ (sym (ap is_nil h) ∙ sort_list_some (once_each (x ∷ l)) (once_each_some x l)))
  where
    differ : true ≡ false → ⊥
    differ g = cc
