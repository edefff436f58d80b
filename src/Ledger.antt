-- ===== src/Ledger.antt =====
-- src/skcoord/coordination.py: what the board keeps on a task of its runs, and its grade.
pub mod Model
pub mod Grade
pub mod Classes
pub mod Bounds
pub mod Again
pub mod Edits
pub mod Rewind
