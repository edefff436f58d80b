-- ===== src/Ledger/Rewind.antt =====
-- src/skcoord/coordination.py: the edits that an update leaves on a task take it back.
use mathlib.Core.List.{append_assoc}
use skcoord.Prelude.{
  String, ◌≡◌, refl, ap, ◌∙◌, ◌&&◌, ◌||◌, inl, inr, Option, none, some, List, [], ◌∷◌, ◌++◌, ◌==◌,
  Bool-cases,
}
use skcoord.Ledger.Edits.{
  Change, of_description, of_acceptance_criteria, of_tags, Edit, Fields, Draft, Update, same_texts,
  is_empty, edit, set_description, set_criteria, merged, set_tags, update_task,
}

abbrev pub undo : Change → Fields → Fields
undo (of_description old new) f = record f { description = old }
undo (of_acceptance_criteria old new) f = record f { acceptance_criteria = old }
undo (of_tags old new) f = record f { tags = old }

-- The fields with the edits taken back, the last edit first.
abbrev pub rewind : List Edit → Fields → Fields
rewind [] f = f
rewind (e ∷ edits) f = undo e.change (rewind edits f)

rewind-append : (a b : List Edit) (f : Fields) → rewind (a ++ b) f ≡ rewind a (rewind b f)
rewind-append [] b f = refl
rewind-append (e ∷ a) b f = ap (undo e.change) (rewind-append a b f)

-- The edits that are new take the fields back.
abbrev pub TakesBack : List Edit → Fields → Draft → Type 0
TakesBack edits fields d =
    (new : List Edit) × (d.edits ≡ edits ++ new) × (rewind new d.fields ≡ fields)

then_back :
    (c d : Draft) (edits : List Edit) (fields : Fields)
    → TakesBack edits fields c
    → TakesBack c.edits c.fields d
    → TakesBack edits fields d
then_back c d edits fields (a, p, q) (b, r, s) = (
  a ++ b,
  r ∙ ap (λ l. l ++ b) p ∙ append_assoc edits a b,
  rewind-append a b d.fields ∙ ap (rewind a) s ∙ q,
)

nothing_new : (edits : List Edit) → edits ≡ edits ++ []
nothing_new [] = refl
nothing_new (e ∷ edits) = ap (λ l. e ∷ l) (nothing_new edits)

unchanged : (d : Draft) → TakesBack d.edits d.fields d
unchanged d = ([], nothing_new d.edits, refl)

module _ (ts : String) (run_id : Option String) where
  description_back :
      (o : Option String) (d : Draft) → TakesBack d.edits d.fields (set_description ts run_id o d)
  unfolding set_description
  description_back none d = unchanged d
  description_back (some new) d = elim (Bool-cases (new == d.fields.description)) [
    | inl same ↦ rw same (unchanged d)
    | inr other ↦
        rw other (edit ts run_id (of_description d.fields.description new) ∷ [], refl, refl)
  ]

  criteria_back :
      (o : Option (List String)) (d : Draft)
      → TakesBack d.edits d.fields (set_criteria ts run_id o d)
  unfolding set_criteria
  criteria_back none d = unchanged d
  criteria_back (some new) d = elim (Bool-cases (same_texts new d.fields.acceptance_criteria)) [
    | inl same ↦ rw same (unchanged d)
    | inr other ↦
        rw other (
          edit ts run_id (of_acceptance_criteria d.fields.acceptance_criteria new) ∷ [],
          refl,
          refl,
        )
  ]

  tags_back :
      (add remove : List String) (d : Draft)
      → TakesBack d.edits d.fields (set_tags ts run_id add remove d)
  unfolding set_tags
  tags_back add remove d =
      let after = merged ts run_id add remove d.fields.tags in
      elim (Bool-cases (is_empty add && is_empty remove || same_texts after d.fields.tags)) [
        | inl same ↦ rw same (unchanged d)
        | inr other ↦ rw other (edit ts run_id (of_tags d.fields.tags after) ∷ [], refl, refl)
      ]

-- What an update changes of a task can be taken back: it leaves the edits of before, with new ones
-- behind them, and undoing the new ones from the last to the first gives the description, the criteria
-- and the tags of before.
pub update_task-rewind :
    (ts : String) (q : Update) (fields : Fields) (edits : List Edit)
    → TakesBack edits fields (update_task ts q fields edits)
unfolding update_task
update_task-rewind ts q fields edits =
    let start : Draft = record { fields = fields; edits = edits; mirrored = [] } in
    let described = set_description ts q.run_id q.description start in
    let accepted = set_criteria ts q.run_id q.acceptance_criteria described in
    then_back accepted (set_tags ts q.run_id q.add_tags q.remove_tags accepted) edits fields
      (then_back described accepted edits fields (description_back ts q.run_id q.description start)
        (criteria_back ts q.run_id q.acceptance_criteria described))
      (tags_back ts q.run_id q.add_tags q.remove_tags accepted)
