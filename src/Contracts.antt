-- ===== src/Contracts.antt =====
-- src/graph_engineering/contracts: the drafts and the frozen revisions of task contracts.
pub mod Repository
pub mod Kept
pub mod Locked
pub mod Again
pub mod Revised
pub mod Runs
pub mod Planned
mod Examples
