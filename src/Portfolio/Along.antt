-- ===== src/Portfolio/Along.antt =====
-- Calls on each entry of a list, and what they answer entry by entry; the dict of the cards by id.
use Prim.Native.String.{compare}
use skcoord.Prelude.{
  String, ◌≡◌, refl, sym, ap, subst, ◌∙◌, inl, inr, Bool, true, false, some, List, [], ◌∷◌, arith,
  map, keep_if, All, Bool-cases, put, look_up, look_up-put, Result, ok, each, holds, is_unique,
  is_eq, ordered_text, self_eq, eq_path, if◌then◌else◌, ◌==◌, eq_iff,
}
use skcoord.Portfolio.Model.{WorkCandidate}
use skcoord.Portfolio.Evaluate.{by_id}

module _ {A B : Type 0} where
  -- Entry by entry.
  abbrev pub Along : (A → B → Type 0) → List A → List B → Type 0
  Along R [] [] = Unit
  Along R [] (y ∷ ys) = ⊥
  Along R (x ∷ xs) [] = ⊥
  Along R (x ∷ xs) (y ∷ ys) = R x y × Along R xs ys

  -- Where each call returns, the calls along a list do.
  pub each-ok :
      (call : A → Result B) (R : A → B → Type 0) (l : List A)
      → All (λ x. (y : B) × (call x ≡ ok y) × R x y) l
      → (ys : List B) × (each call l ≡ ok ys) × Along R l ys
  unfolding each
  each-ok call R [] all = ([], refl, tt)
  each-ok call R (x ∷ l) ((y, called, r), all) =
      let (ys, rest, along) = each-ok call R l all in (y ∷ ys, rw (called, rest) refl, (r, along))

  -- The answers to entries with a property.
  pub Along-All :
      (R : A → B → Type 0) (P : A → Type 0) (xs : List A) (ys : List B)
      → Along R xs ys
      → All P xs
      → All (λ y. (x : A) × P x × R x y) ys
  Along-All R P [] [] along all = tt
  Along-All R P [] (y ∷ ys) along all = absurd along
  Along-All R P (x ∷ xs) [] along all = absurd along
  Along-All R P (x ∷ xs) (y ∷ ys) (r, along) (p, all) = ((x, p, r), Along-All R P xs ys along all)

  -- What the answers keep.
  pub Along-map :
      {C : Type 0} (R : A → B → Type 0) (f : A → C) (g : B → C) (xs : List A) (ys : List B)
      → ((x : A) (y : B) → R x y → g y ≡ f x)
      → Along R xs ys
      → map g ys ≡ map f xs
  Along-map R f g [] [] same along = refl
  Along-map R f g [] (y ∷ ys) same along = absurd along
  Along-map R f g (x ∷ xs) [] same along = absurd along
  Along-map R f g (x ∷ xs) (y ∷ ys) same (r, along) =
      λ i. same x y r i ∷ Along-map R f g xs ys same along i

module _ {A : Type 0} where
  pub All-always : (P : A → Type 0) → ((x : A) → P x) → (l : List A) → All P l
  All-always P p [] = tt
  All-always P p (x ∷ l) = (p x, All-always P p l)

  pub All-both : (P Q : A → Type 0) (l : List A) → All P l → All Q l → All (λ x. P x × Q x) l
  All-both P Q [] p q = tt
  All-both P Q (x ∷ l) (p, ps) (q, qs) = ((p, q), All-both P Q l ps qs)

  -- What a filter keeps has passed its test.
  pub keep_if-All :
      (P : A → Type 0) (test : A → Bool) (l : List A)
      → All P l
      → All (λ x. (test x ≡ true) × P x) (keep_if test l)
  keep_if-All P test [] all = tt
  keep_if-All P test (x ∷ l) (p, all) = elim (Bool-cases (test x)) [
    | inl kept ↦ rw kept ((kept, p), keep_if-All P test l all)
    | inr dropped ↦ rw dropped (keep_if-All P test l all)
  ]

ids : List WorkCandidate → List String
ids = map (λ c. c.card_id)

-- Other texts are apart by the order, and the other way round.
pub apart : (s t : String) → (s == t) ≡ false → is_eq (compare s t) ≡ false
apart s t h = elim (Bool-cases (is_eq (compare s t))) [
  | inl same ↦ absurd (
      differ (sym ((eq_iff s t).1 (ordered_text.compared_eq s t (eq_path (compare s t) same))) ∙ h))
  | inr other ↦ other
]
  where
    differ : true ≡ false → ⊥
    differ g = cc

pub other_text : (s t : String) → is_eq (compare s t) ≡ false → (t == s) ≡ false
other_text s t h = elim (Bool-cases (t == s)) [
  | inl same ↦
      absurd (
        differ
          (sym (subst (λ u. is_eq (compare u t) ≡ true) ((eq_iff t s).0 same) (self_eq t)) ∙ h))
  | inr other ↦ other
]
  where
    differ : true ≡ false → ⊥
    differ g = cc

kept_id :
    (id : String) (found : List (String × WorkCandidate)) (cards : List WorkCandidate)
    → holds id (ids cards) ≡ false
    → look_up id (by_id found cards) ≡ look_up id found
unfolding by_id holds ids
kept_id id found [] h = refl
kept_id id found (c ∷ cards) h =
    kept_id id (put c.card_id c found) cards (ground arith)
    ∙ look_up-put c.card_id id c found
    ∙ ap (λ b. if b then some c else look_up id found) (other_text id c.card_id (ground arith))

-- Where no id stands twice, each card is found by its id.
pub found_by_id :
    (found : List (String × WorkCandidate)) (cards : List WorkCandidate)
    → is_unique (map (λ c. c.card_id) cards) ≡ true
    → All (λ c. look_up c.card_id (by_id found cards) ≡ some c) cards
unfolding by_id is_unique ids
found_by_id found [] h = tt
found_by_id found (c ∷ cards) h = (
  kept_id c.card_id (put c.card_id c found) cards (ground arith)
      ∙ look_up-put c.card_id c.card_id c found
      ∙ ap (λ b. if b then some c else look_up c.card_id found)
          ((eq_iff c.card_id c.card_id).1 refl),
  found_by_id (put c.card_id c found) cards (ground arith),
)
