-- ===== src/Itil/Change.antt =====
-- src/skcoord/itil.py: changes. The data is in `Change/Model`, the gate that the CAB votes open in
-- `Change/Gate`, the loop in `Change/Fold`, the derivation behind it in `Change/Settle`; the other
-- children hold the theorems.
pub mod Model
pub mod Gate
pub mod Fold
pub mod Settle
pub mod Moves
pub mod Hold
pub mod Approval
pub mod Agreement
pub mod Edges
pub mod Windows
pub mod Trace
