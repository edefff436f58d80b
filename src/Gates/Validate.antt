-- ===== src/Gates/Validate.antt =====
-- src/skcoord/abandon_reason.py: `validate_exit_gates`. A key that is not there is none.
use skcoord.Prelude.{
  String, Option, get_or, List, [], ◌∷◌, is_blank, if◌then◌else◌, Result, ok, err, ◌>>=◌,
  value_error,
}

-- An entry that is an object, with the keys that no one reads here.
pub record Gate : Type 0 where
  pub gate : Option String
  pub owner : Option String
  pub others : List (String × String)

pub data Entry : Type 0 where
  not_object : Entry
  object : Gate → Entry

-- The value under exit_gates: None, something else than a list, or a list.
pub data Given : Type 0 where
  absent not_list : Given
  listed : List Entry → Given

unfoldable pub validate_entry : Entry → Result Gate
validate_entry not_object = err (value_error "exit_gates entry must be an object")
validate_entry (object g) =
    if is_blank (get_or g.gate "")
    then err (value_error "exit_gates entry needs a 'gate' name")
    else if is_blank (get_or g.owner "")
    then err (value_error "exit_gates entry needs an 'owner' seat")
    else ok g

unfoldable pub validate_entries : List Entry → Result (List Gate)
unfolding validate_entry
validate_entries [] = ok []
validate_entries (e ∷ entries) =
    validate_entry e >>= λ g. validate_entries entries >>= λ gs. ok (g ∷ gs)

unfoldable pub validate_exit_gates : Given → Result (List Gate)
unfolding validate_entries
validate_exit_gates absent = ok []
validate_exit_gates not_list = err (value_error "exit_gates must be a list of objects")
validate_exit_gates (listed entries) = validate_entries entries
