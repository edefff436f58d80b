-- ===== src/Ledger/Edits.antt =====
-- src/skcoord/coordination.py: `_update_task_unlocked`, as the change that it hands to `_write_task_raw`
-- and the labels that it mirrors. A field that is not there is empty.
use skcoord.Prelude.{
  String, Bool, true, false, not, ◌&&◌, ◌||◌, Option, none, some, List, [], ◌∷◌, ◌++◌, map, ◌==◌,
  contains, keep_if, if◌then◌else◌,
}

pub data Action : Type 0 where
  add_label remove_label : String → Action

-- A snapshot of a field: its name, and what it was and is.
pub data Change : Type 0 where
  of_description : (old new : String) → Change
  of_acceptance_criteria of_tags : (old new : List String) → Change

pub record Edit : Type 0 where
  pub change : Change
  pub ts : String
  pub run_id : Option String

pub record Fields : Type 0 where
  pub description : String
  pub acceptance_criteria : List String
  pub tags : List String

-- The task's file and the labels that are to be mirrored.
pub record Draft : Type 0 where
  pub fields : Fields
  pub edits : List Edit
  pub mirrored : List Action

pub record Update : Type 0 where
  pub description : Option String
  pub acceptance_criteria : Option (List String)
  pub add_tags : List String
  pub remove_tags : List String
  pub run_id : Option String

abbrev pub same_texts : List String → List String → Bool
same_texts [] [] = true
same_texts [] (y ∷ ys) = false
same_texts (x ∷ xs) [] = false
same_texts (x ∷ xs) (y ∷ ys) = x == y && same_texts xs ys

abbrev pub is_empty : List String → Bool
is_empty [] = true
is_empty (x ∷ xs) = false

module _ (ts : String) (run_id : Option String) where
  abbrev pub edit : Change → Edit
  edit c = record { change = c; ts = ts; run_id = run_id }

  unfoldable pub set_description : Option String → Draft → Draft
  set_description none d = d
  set_description (some new) d = if new == d.fields.description then d else record d {
    fields = record (d.fields) { description = new };
    edits = d.edits ++ edit (of_description d.fields.description new) ∷ [];
  }

  unfoldable pub set_criteria : Option (List String) → Draft → Draft
  set_criteria none d = d
  set_criteria (some new) d = if same_texts new d.fields.acceptance_criteria then d else record d {
    fields = record (d.fields) { acceptance_criteria = new };
    edits = d.edits ++ edit (of_acceptance_criteria d.fields.acceptance_criteria new) ∷ [];
  }

  abbrev pub merged : List String → List String → List String → List String
  merged add remove existing =
      let more = existing ++ keep_if (λ t. not (contains t existing)) add in
      if is_empty remove then more else keep_if (λ t. not (contains t remove)) more

  abbrev pub label_actions : List String → List String → List Action
  label_actions existing after =
      map add_label (keep_if (λ t. not (contains t existing)) after)
      ++ map remove_label (keep_if (λ t. not (contains t after)) existing)

  unfoldable pub set_tags : List String → List String → Draft → Draft
  set_tags add remove d =
      let after = merged add remove d.fields.tags in
      if (is_empty add && is_empty remove || same_texts after d.fields.tags) then d else record {
        fields = record (d.fields) { tags = after };
        edits = d.edits ++ edit (of_tags d.fields.tags after) ∷ [];
        mirrored = d.mirrored ++ label_actions d.fields.tags after;
      }

-- The task as it is, and the update of it.
unfoldable pub update_task : String → Update → Fields → List Edit → Draft
unfolding set_description set_criteria set_tags
update_task ts q fields edits = set_tags ts q.run_id q.add_tags q.remove_tags (
    set_criteria ts q.run_id q.acceptance_criteria (
      set_description ts q.run_id q.description
        (record { fields = fields; edits = edits; mirrored = [] })))
