-- ===== src/Coord.antt =====
-- src/skcoord/coordination.py: the coordination board. Agents claim, release and complete tasks, each
-- in its own file, and the status of a task is derived from those files.
pub mod Model
pub mod Views
pub mod Claim
pub mod Release
pub mod Complete
pub mod Steps
pub mod Shown
pub mod Gates
pub mod Finish
pub mod Freed
pub mod FileFreed
pub mod Retry
