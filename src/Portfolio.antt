-- ===== src/Portfolio.antt =====
-- src/skcoord/portfolio.py with its contracts in src/skcoord/portfolio_contracts.py: which cards a plan
-- recommends, and whether a review completes.
pub mod IsoFormat
pub mod Model
pub mod Contracts
pub mod Quality
pub mod Candidate
pub mod Evaluate
pub mod Passed
pub mod Facts
pub mod Eligible
pub mod Review
pub mod Reviewed
pub mod Completes
pub mod Demands
pub mod Reasons
pub mod Decide
pub mod Along
pub mod Rank
pub mod Orderly
pub mod PlanReasons
pub mod Entries
pub mod Accepted
pub mod Returns
pub mod Steward
pub mod Deterministic
