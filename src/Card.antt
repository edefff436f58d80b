-- ===== src/Card.antt =====
-- src/skcoord/card_store.py and src/skcoord/card.py: the event-sourced cards. The data is in
-- `Card/Model`, the events in `Card/Event`, the fold in `Card/Claim`, `Card/Runs` and `Card/Fold`.
pub mod Model
pub mod Event
pub mod Claim
pub mod Runs
pub mod Fold
pub mod Rounds
pub mod Void
pub mod Release
pub mod Ownership
pub mod Races
pub mod Sets
pub mod Totality
