-- ===== src/Runtime/Rows.antt =====
-- runtime/store.py: the rows of the tables that belong to one run. Time stamps that nothing reads
-- again are left out; those that the budget reads are microseconds.
use graph_engineering.Prelude.{ℕ, String, Bool, true, false, Option, List}
use graph_engineering.Models.Graph.{NodeType, Subgraph}
use graph_engineering.Models.Results.{Result, BranchStatus, BranchResult}
use graph_engineering.Models.Control.{ControlIntent, ControlOutcome}

-- The texts that the column `nodes.status` takes.
pub data NodeStatus : Type 0 where
  pending ready running succeeded failed blocked error cancelled : NodeStatus

abbrev pub is_ready : NodeStatus → Bool
is_ready NodeStatus.ready = true
is_ready _ = false

abbrev pub is_running : NodeStatus → Bool
is_running NodeStatus.running = true
is_running _ = false

-- Table nodes.
pub record NodeRow : Type 0 where
  pub node_id : String
  pub node_type : NodeType
  pub status : NodeStatus
  pub attempt_count : ℕ
  pub result : Option Result
  pub route_resolved : Bool
  pub first_started_at : Option ℕ
  pub cost_units : ℕ
  pub repair_iterations : ℕ

-- The text f"{run_id}:{node_id}:{number}" of one run; a node id holds no colon.
pub record AttemptId : Type 0 where
  pub node_id : String
  pub number : ℕ

-- Table attempts.
pub record AttemptRow : Type 0 where
  pub node_id : String
  pub attempt_number : ℕ
  pub status : NodeStatus
  pub result : Option Result

-- Table edge_traversals.
pub record EdgeRow : Type 0 where
  pub from_node : String
  pub to_node : String
  pub traversal_count : ℕ

-- Table budgets.
pub record BudgetRow : Type 0 where
  pub max_duration_seconds : ℕ
  pub max_executor_calls : ℕ
  pub max_repair_iterations : ℕ
  pub max_cost_units : Option ℕ
  pub executor_calls : ℕ
  pub repair_iterations : ℕ
  pub cost_units : Option ℕ
  pub started_at : ℕ

pub data TriggerState : Type 0 where
  triggering checkpointed : TriggerState

pub data CancelState : Type 0 where
  unsupported cancelled unknown : CancelState

-- Table external_handles; its idempotency key is f"{run_id}:{node_id}".
pub record HandleRow : Type 0 where
  pub node_id : String
  pub trigger_state : TriggerState
  pub handle : Option String
  pub verifier_id : Option String
  pub verifier_revision : Option ℕ
  pub cancel_state : Option CancelState
  pub residual_effect : Option String

-- Table shared_budget_reservations.
pub record ReservationRow : Type 0 where
  pub reservation_id : String
  pub node_id : Option String
  pub cost_units : ℕ

-- Table control_intents.
pub record IntentRow : Type 0 where
  pub run_id : String
  pub intent_id : String
  pub intent : ControlIntent
  pub outcome : ControlOutcome

pub data Role : Type 0 where
  runtime verifier executor : Role

-- Table run_artifacts.
pub record ArtifactRow : Type 0 where
  pub artifact_id : String
  pub node_id : String
  pub role : Role

pub data BranchState : Type 0 where
  pending active : BranchState
  finished : BranchStatus → BranchState

-- Table parallel_branches.
pub record BranchRow : Type 0 where
  pub container_node_id : String
  pub branch_id : String
  pub branch_order : ℕ
  pub subgraph : Subgraph
  pub status : BranchState
  pub current_node_id : Option String
  pub result : Option BranchResult

-- Table parallel_branch_nodes.
pub record BranchNodeRow : Type 0 where
  pub container_node_id : String
  pub branch_id : String
  pub node_id : String
  pub node_type : NodeType
  pub status : NodeStatus
  pub attempt_count : ℕ
  pub result : Option Result
  pub route_resolved : Bool
  pub first_started_at : Option ℕ
  pub cost_units : ℕ
  pub repair_iterations : ℕ

-- Table parallel_branch_attempts; the text of the id is f"{run_id}:{container}:{branch}:{node}:{number}".
pub record BranchAttemptRow : Type 0 where
  pub attempt_id : AttemptId
  pub container_node_id : String
  pub branch_id : String
  pub node_id : String
  pub attempt_number : ℕ
  pub status : NodeStatus
  pub result : Option Result

-- Table parallel_branch_edge_traversals.
pub record BranchEdgeRow : Type 0 where
  pub container_node_id : String
  pub branch_id : String
  pub from_node : String
  pub to_node : String
  pub traversal_count : ℕ

-- The column runs.barrier.
pub data Barrier : Type 0 where
  pause interrupt cancel : Barrier

-- The values of a checkpoint's state_json, without its order.
pub record Checkpoint : Type 0 where
  pub reason : String
  pub graph_hash : String
  pub contract_hash : String
  pub current_node_id : Option String
  pub nodes : List NodeRow
  pub edges : List EdgeRow
  pub artifacts : List ArtifactRow
  pub branches : List BranchRow
  pub branch_nodes : List BranchNodeRow
  pub branch_edges : List BranchEdgeRow

-- A row of event_outbox: the type of the event, its node and its attempt.
pub record Event : Type 0 where
  pub event_type : String
  pub node_id : Option String
  pub attempt_id : Option AttemptId
