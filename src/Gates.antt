-- ===== src/Gates.antt =====
-- src/skcoord/abandon_reason.py: the exit gates of a card.
pub mod Validate
pub mod Exact
