-- ===== src/Lifecycle.antt =====
-- src/skcoord/lifecycle.py: the audit of the agents' files against the cards, and their repair.
pub mod Audit
pub mod Quiet
pub mod Clean
pub mod Holders
pub mod Owners
pub mod Settled
pub mod Dicts
pub mod Repair
pub mod Retained
pub mod Served
