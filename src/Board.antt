-- ===== src/Board.antt =====
-- src/skcoord/card.py: the kanban board: its overlay, folded and applied, and its cells.
pub mod Overlay
pub mod Validate
pub mod Patch
pub mod Agreement
pub mod Verdict
pub mod Grid
pub mod Cells
