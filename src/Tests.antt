-- ===== src/Tests.antt =====
-- Concrete inputs, on which the theorems of the other modules are applied.
mod Changes
mod Desks
mod Incidents
mod Problems
mod Cards
mod Coords
mod Ledgers
mod Audits
mod Repairs
mod Boards
mod Graphs
mod Gates
mod Portfolios
mod Grids
