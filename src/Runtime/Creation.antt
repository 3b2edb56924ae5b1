-- ===== src/Runtime/Creation.antt =====
-- create_run of engine.py. The hash of a graph, of its canonical JSON, is an argument.
use graph_engineering.Prelude.{
  ℕ, String, false, not, Option, none, some, List, [], ◌∷◌, Except, ok, require, value_error,
  integrity_error, ◌>>=◌, ◌>>◌, ◌==◌, is_some, coalesce, if◌then◌else◌, find_first,
}
use graph_engineering.Models.Common.{Artifact, Budget, RunRelationship, RestartFrom}
use graph_engineering.Models.Graph.{Node, ExecutionGraph}
use graph_engineering.Models.Reports.{RunStatus}
use graph_engineering.Runtime.Rows.{NodeStatus, NodeRow, BudgetRow, IntentRow}
use graph_engineering.Runtime.State.{Run, seal}
use graph_engineering.Runtime.Lineage.{Source, run_exists, validate_run_lineage}
use graph_engineering.Runtime.Branches.{initialize, inherit_branches, inherit_nodes, restart_node}

-- All runs, and the tables that they share.
pub record Database : Type 0 where
  pub runs : List Run
  pub intents : List IntentRow
  pub metadata : List Artifact

-- The row of a node in a new run: fresh, or as the checkpoint has it, with running work made ready.
fresh_row : String → Node → NodeRow
fresh_row entry n = record {
  node_id = n.node_id;
  node_type = n.node_type;
  status = if n.node_id == entry then NodeStatus.ready else NodeStatus.pending;
  attempt_count = 0;
  result = none;
  route_resolved = false;
  first_started_at = none;
  cost_units = 0;
  repair_iterations = 0;
}

inherited_row : Node → NodeRow → NodeRow
inherited_row n saved = record {
  node_id = n.node_id;
  node_type = n.node_type;
  status = restart_node saved.status;
  attempt_count = saved.attempt_count;
  result = saved.result;
  route_resolved = saved.route_resolved;
  first_started_at = none;
  cost_units = 0;
  repair_iterations = 0;
}

unfoldable pub row_of : String → Node → Option NodeRow → NodeRow
unfolding fresh_row inherited_row
row_of entry n none = fresh_row entry n
row_of entry n (some saved) = inherited_row n saved

unfoldable pub initial_rows : String → List NodeRow → List Node → List NodeRow
unfolding row_of
initial_rows entry saved [] = []
initial_rows entry saved (n ∷ ns) =
    row_of entry n (find_first (λ row. row.node_id == n.node_id) saved)
    ∷ initial_rows entry saved ns

initial_budget : Budget → ℕ → BudgetRow
initial_budget b now = record {
  max_duration_seconds = b.max_duration_seconds;
  max_executor_calls = b.max_executor_calls;
  max_repair_iterations = b.max_repair_iterations;
  max_cost_units = b.max_cost_units;
  executor_calls = 0;
  repair_iterations = 0;
  cost_units = if is_some b.max_cost_units then some 0 else none;
  started_at = now;
}

unfoldable pub saved_nodes : Option Source → List NodeRow
saved_nodes none = []
saved_nodes (some (run_id, c)) = c.nodes

saved_current : Option Source → Option String
saved_current none = none
saved_current (some (run_id, c)) = c.current_node_id

-- The rows of edges and artifacts that a restarted run takes over.
unfoldable pub inherit : Option Source → Run → Run
inherit none r = r
inherit (some (run_id, c)) r = record r {
  branches = inherit_branches c.branches r.branches;
  branch_nodes = inherit_nodes c.branch_nodes r.branch_nodes;
  branch_edges = c.branch_edges;
  edges = c.edges;
  artifacts = c.artifacts;
}

-- The runs row and the rows of the nodes and of the budget.
unfoldable pub new_run :
    String
    → ExecutionGraph
    → String
    → String
    → Budget
    → RunRelationship
    → Option Source
    → ℕ
    → Database
    → Run
unfolding initial_budget saved_nodes saved_current
new_run run_id graph graph_hash contract_hash budget rel source now db = record {
  run_id = run_id;
  contract_hash = contract_hash;
  graph_hash = graph_hash;
  status = RunStatus.running;
  barrier = none;
  current_node_id = some (coalesce (saved_current source) graph.entry_node_id);
  parent_run_id = rel.parent_run_id;
  supersedes_run_id = rel.supersedes_run_id;
  terminal_reason = none;
  error = none;
  unverified = [];
  external_effects = [];
  nodes = initial_rows graph.entry_node_id (saved_nodes source) graph.nodes;
  attempts = [];
  edges = [];
  budget = some (initial_budget budget now);
  handles = [];
  reservations = [];
  branches = [];
  branch_nodes = [];
  branch_attempts = [];
  branch_edges = [];
  artifacts = [];
  report = none;
  intents = db.intents;
  metadata = db.metadata;
  checkpoints = [];
  outbox = [];
}

-- The new run, or the exception that rolls its rows back.
unfoldable pub create_run :
    (String → ℕ → String)
    → (ExecutionGraph → String)
    → String
    → ExecutionGraph
    → String
    → Budget
    → RunRelationship
    → Option RestartFrom
    → ℕ
    → Database
    → Except Run
unfolding new_run inherit
create_run refs sha256 run_id graph contract_hash budget rel restart now db = do
  require (rel.run_id == run_id) (value_error "RunRelationship.run_id must equal run_id")
  source ← validate_run_lineage refs db.runs rel (sha256 graph) contract_hash restart
  require (not (run_exists run_id db.runs))
      (integrity_error "UNIQUE constraint failed: runs.run_id")
  r ←
      initialize graph.nodes
        (new_run run_id graph (sha256 graph) contract_hash budget rel source now db)
  ok (seal "run_created" "run.created" none none (inherit source r))
