-- ===== src/Findings.antt =====
-- The finding services: groups of findings over the revisions of a pull request.
pub mod Rows
pub mod Rules
pub mod Paths
pub mod Published
pub mod Reconcile
pub mod Closure
pub mod Samples
mod Witnesses
