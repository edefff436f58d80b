-- ===== src/Itil/Incident.antt =====
-- src/skcoord/itil.py: incidents. The data is in `Incident/Model`, the fold in `Incident/Fold`, and
-- the other children hold its theorems.
pub mod Model
pub mod Fold
pub mod Status
pub mod Times
pub mod Severity
pub mod Timeline
