-- ===== src/Verifier.antt =====
-- src/graph_engineering/verifier: the revisions of verifiers and their life cycle.
pub mod Lifecycle
pub mod History
pub mod Earned
pub mod Bound
mod Examples
