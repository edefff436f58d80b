-- ===== src/Itil.antt =====
-- src/skcoord/itil.py: the event log of a record, its timeline, and the folds below.
pub mod Event
pub mod Trail
pub mod Incident
pub mod Problem
pub mod Cab
pub mod Change
pub mod Manager
