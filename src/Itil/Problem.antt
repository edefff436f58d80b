-- ===== src/Itil/Problem.antt =====
-- src/skcoord/itil.py: problems. The data is in `Problem/Model`, the fold in `Problem/Fold`, its
-- theorems in `Problem/Lifecycle`.
pub mod Model
pub mod Fold
pub mod Lifecycle
