-- ===== src/Models.antt =====
-- The protocol models, src/graph_engineering/models: each record has the fields that the runtime
-- reads, and each `model_validator` is a function that returns or raises ValueError.
pub mod Common
pub mod Graph
pub mod Topology
pub mod Results
pub mod Control
pub mod Reports
