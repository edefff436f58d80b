-- ===== src/Tests/Gates.antt =====
-- Exit gates: the theorem on src/skcoord/abandon_reason.py at a concrete list.
use skcoord.Prelude.{◌≡◌, ◌↔◌, some, [], ◌∷◌, ok}
use skcoord.Gates.Validate.{Gate, object, listed, validate_exit_gates}
use skcoord.Gates.Exact.{AreGates, validate_exit_gates_iff}

abbrev review_gate : Gate
review_gate = record { gate = some "review"; owner = some "lumina"; others = [] }

validate_exit_gates_iff_example :
    (validate_exit_gates (listed (object review_gate ∷ [])) ≡ ok (review_gate ∷ []))
    ↔ AreGates (object review_gate ∷ []) (review_gate ∷ [])
validate_exit_gates_iff_example =
    validate_exit_gates_iff (object review_gate ∷ []) (review_gate ∷ [])
