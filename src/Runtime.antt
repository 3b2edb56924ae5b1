-- ===== src/Runtime.antt =====
-- src/graph_engineering/runtime: the state of a run in the database, and the operations of
-- GraphRuntime on it. What they guarantee is proved in the modules below each.
pub mod Rows
pub mod State
pub mod Queries
pub mod Limits
pub mod Artifacts
pub mod Finish
pub mod Attempts
pub mod Conditions
pub mod Routes
pub mod Costs
pub mod Branches
pub mod Joins
pub mod Control
pub mod Lineage
pub mod Creation
pub mod Recovery
pub mod Transactions
pub mod Starts
pub mod Invariant
pub mod Verdicts
pub mod Steps
pub mod Reports
pub mod Routing
pub mod Reservations
pub mod Joining
pub mod Asides
pub mod Controls
pub mod Races
pub mod Cancelling
pub mod Recovering
pub mod Events
pub mod Boundaries
pub mod Loop
pub mod Beginning
pub mod Following
mod Examples
