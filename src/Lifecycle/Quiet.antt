-- ===== src/Lifecycle/Quiet.antt =====
-- src/skcoord/lifecycle.py: reports without issues.
use skcoord.Prelude.{
  String, ◌≡◌, ◌≢◌, refl, Bool, true, false, inl, inr, Option, List, [], ◌∷◌, ◌++◌, arith, eq_iff,
  All, look_up, Bool-cases,
}
use skcoord.Card.Model.{Card}
use skcoord.Lifecycle.Audit.{Issue, issue_if, gathered, in_scope, scoped_cards, insert, ordered}

pub ++-empty : (xs ys : List Issue) → xs ++ ys ≡ [] → (xs ≡ []) × (ys ≡ [])
++-empty [] ys h = (refl, h)
++-empty (x ∷ xs) ys h = cc

module _ {A : Type 0} where
  pub gathered-empty :
      (issues : A → List Issue) (xs : List A)
      → gathered issues xs ≡ []
      → All (λ x. issues x ≡ []) xs
  gathered-empty issues [] h = tt
  gathered-empty issues (x ∷ xs) h =
      let (now, later) = ++-empty (issues x) (gathered issues xs) h in
      (now, gathered-empty issues xs later)

  pub All-map : {P Q : A → Type 0} → ((x : A) → P x → Q x) → (xs : List A) → All P xs → All Q xs
  All-map f [] all = tt
  All-map f (x ∷ xs) (p, all) = (f x p, All-map f xs all)

pub quiet :
    (b : Bool) (code id : String) (o : Option String) → issue_if b code id o ≡ [] → b ≡ false
quiet false code id o h = refl
quiet true code id o h = cc

not_inserted : (x : Issue) (l : List Issue) → insert x l ≢ []
unfolding insert
not_inserted x [] h = cc
not_inserted x (y ∷ l) h = ground arith

pub ordered-empty : (l : List Issue) → ordered l ≡ [] → l ≡ []
unfolding ordered
ordered-empty [] h = refl
ordered-empty (x ∷ l) h = absurd (not_inserted x (ordered l) h)

pub look_up-scoped :
    (scope : Option (List String)) (cards : List (String × Card)) (id : String)
    → in_scope scope id ≡ true
    → look_up id (scoped_cards scope cards) ≡ look_up id cards
unfolding scoped_cards look_up
look_up-scoped scope [] id h = refl
look_up-scoped scope ((key, c) ∷ cards) id h = elim (Bool-cases (in_scope scope key)) [
  | inl seen ↦ ground (arith, look_up-scoped scope cards id h)
  | inr unseen ↦ ground (arith, look_up-scoped scope cards id h, eq_iff key id)
]
