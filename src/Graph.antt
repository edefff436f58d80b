-- ===== src/Graph.antt =====
-- src/skcoord/dependency_graph.py: the dependencies between cards.
pub mod Cycle
pub mod Fuel
pub mod Reach
pub mod Acyclic
pub mod Amend
