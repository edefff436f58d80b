-- ===== src/Card/Sets.antt =====
-- src/skcoord/card_store.py: the labels and the dependencies of a card are sets.
use skcoord.Prelude.{
  IsDistinct, contains-append_one, append_one-IsDistinct, contains-discard, discard-IsDistinct,
  String, Bool-cases, ◌≡◌, refl, sym, ap, subst, ◌∙◌, Bool, true, false, not, ◌&&◌, ◌||◌, ◌⊎◌, inl,
  inr, Option, none, some, List, is_set, opt_eq, arith, eq_iff, contains, truthy, ok, >>=-eq-ok,
}
use skcoord.Card.Model.{Card, Core}
use skcoord.Card.Event.{Event, Action, is_void_terminal}
use skcoord.Card.Claim.{
  apply_void, apply_move, apply_assign, apply_unassign, apply_complete, apply_release, apply_claim,
  apply_archive, apply_reopen,
}
use skcoord.Card.Runs.{apply_run_request, apply_run_claim, apply_run_activity, apply_run_state}
use skcoord.Card.Fold.{
  State, with_text, without_text, apply, apply_add_label, apply_remove_label, advance, birth,
  fold_events,
}
use skcoord.Card.Rounds.{Skipped, Applied, ok-injective, advance_cases, run_keeps}

add-IsDistinct :
    (o : Option String) (xs : List String) → IsDistinct xs → IsDistinct (with_text o xs)
add-IsDistinct none xs d = d
add-IsDistinct (some x) xs d = elim (Bool-cases (truthy x && not (contains x xs))) [
  | inl new ↦ rw new (append_one-IsDistinct x xs (ground arith) d)
  | inr old ↦ rw old d
]

remove-IsDistinct :
    (o : Option String) (xs : List String) → IsDistinct xs → IsDistinct (without_text o xs)
remove-IsDistinct none xs d = d
remove-IsDistinct (some x) xs d = discard-IsDistinct x xs d

pub record HasSets (c : Card) : Type 0 where
  pub labels : IsDistinct c.labels
  pub dependencies : IsDistinct c.dependencies

-- A card with the same labels and dependencies.
same_sets :
    (c d : Card) → HasSets c → (d.labels ≡ c.labels) × (d.dependencies ≡ c.dependencies) → HasSets d
same_sets c d h (p, q) = record {
  labels = subst IsDistinct (sym p) h.labels;
  dependencies = subst IsDistinct (sym q) h.dependencies;
}

-- The actions that edit one of the two lists.
abbrev pub edits_sets : Action → Bool
edits_sets Action.add_label = true
edits_sets Action.remove_label = true
edits_sets Action.add_dependency = true
edits_sets Action.remove_dependency = true
edits_sets _ = false

apply-sets :
    (a : Action) (c : Card) (e : Event) {d : Card}
    → edits_sets a ≡ false
    → apply a c e ≡ ok d
    → (d.labels ≡ c.labels) × (d.dependencies ≡ c.dependencies)
unfolding apply apply_void apply_move apply_assign apply_unassign apply_complete apply_release
    apply_claim apply_archive apply_reopen apply_run_request apply_run_claim apply_run_activity
    apply_run_state
apply-sets Action.add_label c e h p = cc
apply-sets Action.remove_label c e h p = cc
apply-sets Action.add_dependency c e h p = cc
apply-sets Action.remove_dependency c e h p = cc
apply-sets _ c e h p = (ground arith, ground arith)

apply-HasSets :
    (a : Action) (c : Card) (e : Event) {d : Card} → apply a c e ≡ ok d → HasSets c → HasSets d
unfolding apply
apply-HasSets Action.add_label c e p h =
    subst HasSets (ok-injective p)
      (record { labels = add-IsDistinct e.label c.labels h.labels; dependencies = h.dependencies })
apply-HasSets Action.remove_label c e p h =
    subst HasSets (ok-injective p) (record {
      labels = remove-IsDistinct e.label c.labels h.labels;
      dependencies = h.dependencies;
    })
apply-HasSets Action.add_dependency c e p h = subst HasSets (ok-injective p) (record {
  labels = h.labels;
  dependencies = add-IsDistinct e.dependency c.dependencies h.dependencies;
})
apply-HasSets Action.remove_dependency c e p h = subst HasSets (ok-injective p) (record {
  labels = h.labels;
  dependencies = remove-IsDistinct e.dependency c.dependencies h.dependencies;
})
apply-HasSets a c e p h = same_sets c _ h (apply-sets a c e refl p)

abbrev SetsKept : State → Type 0
SetsKept s = HasSets s.card

round-HasSets :
    (a : Action) (s : State) (e : Event) {t : State}
    → HasSets s.card
    → Skipped a s e t ⊎ Applied a s e t
    → HasSets t.card
round-HasSets a s e h (inl (_, _, q)) = same_sets s.card _ h (ground arith, ground arith)
round-HasSets a s e h (inr (c, _, made, q)) =
    same_sets c _ (apply-HasSets a s.card e made h) (ground arith, ground arith)

birth-sets :
    (core : Core) {c : Card}
    → birth core ≡ ok c
    → (c.labels ≡ core.initial_labels) × (c.dependencies ≡ core.dependencies)
unfolding birth
birth-sets core h = (ground arith, ground arith)

-- If no label and no dependency stands twice in the birth facts, none ever does in the folded card.
pub folded_sets :
    (core : Core) (events : List Event) {t : State}
    → IsDistinct core.initial_labels
    → IsDistinct core.dependencies
    → fold_events core events ≡ ok t
    → IsDistinct t.card.labels × IsDistinct t.card.dependencies
unfolding fold_events
folded_sets core events labels dependencies h =
    let (c, made, ran) = >>=-eq-ok (birth core) _ h in
    let (p, q) = birth-sets core made in
    let kept =
      run_keeps SetsKept (λ a s t e k r. round-HasSets a s e k (advance_cases a s e r))
        (record { card = c; voided = false }) events
        (record {
          labels = subst IsDistinct (sym p) labels;
          dependencies = subst IsDistinct (sym q) dependencies;
        })
        ran in
    (kept.labels, kept.dependencies)

-- What an action does to the set of labels: whether the label `y` is there afterwards.
abbrev pub labelled : Action → Event → String → Bool → Bool
labelled Action.add_label e y old = old || (is_set e.label && opt_eq e.label (some y))
labelled Action.remove_label e y old = old && not (opt_eq e.label (some y))
labelled _ e y old = old

added-contains :
    (o : Option String) (y : String) (xs : List String)
    → contains y (with_text o xs) ≡ (contains y xs || (is_set o && opt_eq o (some y)))
added-contains none y xs = ground arith
added-contains (some x) y xs = ground (arith, contains-append_one y x xs, eq_iff y x, eq_iff x y)

removed-contains :
    (o : Option String) (y : String) (xs : List String)
    → IsDistinct xs
    → contains y (without_text o xs) ≡ (contains y xs && not (opt_eq o (some y)))
removed-contains none y xs h = ground arith
removed-contains (some x) y xs h = contains-discard x y xs h

apply-labels :
    (a : Action) (c : Card) (e : Event) (y : String) {d : Card}
    → IsDistinct c.labels
    → apply a c e ≡ ok d
    → contains y d.labels ≡ labelled a e y (contains y c.labels)
unfolding apply apply_add_label apply_remove_label
apply-labels Action.add_label c e y h p =
    ap (λ (k : Card). contains y k.labels) (sym (ok-injective p))
    ∙ added-contains e.label y c.labels
apply-labels Action.remove_label c e y h p =
    ap (λ (k : Card). contains y k.labels) (sym (ok-injective p))
    ∙ removed-contains e.label y c.labels h
apply-labels Action.add_dependency c e y h p = ground arith
apply-labels Action.remove_dependency c e y h p = ground arith
apply-labels a c e y h p = ap (contains y) (apply-sets a c e refl p).0

terminal_labels :
    (a : Action) (e : Event) (y : String) (b : Bool)
    → is_void_terminal a ≡ true
    → b ≡ labelled a e y b
terminal_labels Action.add_label e y b h = cc
terminal_labels Action.remove_label e y b h = cc
terminal_labels _ e y b h = refl

-- The labels of a card behave as a set: where none stands twice, add_label puts in its label if it
-- is not empty, remove_label takes its label out, and no other action changes what is a label.
pub labels_as_set :
    (a : Action) (s t : State) (e : Event) (y : String)
    → IsDistinct s.card.labels
    → advance a s e ≡ ok t
    → contains y t.card.labels ≡ labelled a e y (contains y s.card.labels)
labels_as_set a s t e y h p = elim (advance_cases a s e p) [
  | inl (_, terminal, q) ↦
      ap (λ (k : State). contains y k.card.labels) q
      ∙ terminal_labels a e y (contains y s.card.labels) terminal
  | inr (c, _, made, q) ↦
      ap (λ (k : State). contains y k.card.labels) (sym q) ∙ apply-labels a s.card e y h made
]
