-- ===== src/Itil/Manager.antt =====
-- src/skcoord/itil.py: calls of `ITILManager` that write, and what they set off.
pub mod Ballot
pub mod Update
pub mod Effects
pub mod Links
pub mod Once
