-- ===== src/Runtime/Examples.antt =====
-- A run of a graph of an agent and a verifier, on which the theorems are applied.
mod Sequences
mod Operations
mod Loops
use graph_engineering.Prelude.{
  ℕ, String, true, false, Option, none, some, List, [], ◌∷◌, ◌++◌, any, find_first, coalesce,
  if◌then◌else◌, leb, runtime_invariant, ◌+◌, ◌≤◌, ◌&&◌, ◌≡◌, ◌≢◌, refl, arith, Except, ok, raise,
  inr, update_where, ◌==◌, eq_iff, recovery_error, distinct, elem, map, ◌⊎◌, All,
}
use graph_engineering.Models.Common.{Budget, RunRelationship}
use graph_engineering.Models.Graph.{
  validate_static_topology, check_edges, check_joins, Node, NodeType, Edge, ExecutionGraph, Config,
  RouteCondition, RouteField, RouteOperator, text, scalar,
}
use graph_engineering.Models.Reports.{RunStatus, TerminalStatus}
use graph_engineering.Runtime.Rows.{NodeStatus, NodeRow, BudgetRow, AttemptId, Barrier, is_ready}
use graph_engineering.Runtime.State.{Run}
use graph_engineering.Runtime.Creation.{Database, create_run, new_run, saved_nodes, initial_rows}
use graph_engineering.Runtime.Lineage.{Source, validate_run_lineage}
use graph_engineering.Runtime.Branches.{initialize}
use graph_engineering.Runtime.Attempts.{start_attempt}
use graph_engineering.Runtime.Invariant.{Inv, settled}
use graph_engineering.Models.Results.{
  Result, ExecutorStatus, BranchResult, BranchStatus, ParallelResult, executor, validated,
  failure_semantics_are_explicit, strictly_sorted,
}
use graph_engineering.Models.Control.{
  QueryControlIntent, StateChangeControlIntent, ControlOutcome, query_progress, interrupt, query,
  state_change,
}
use graph_engineering.Models.Reports.{
  human_cancelled, acceptance_failed, execution_error, is_terminal,
}
use graph_engineering.Runtime.Rows.{BranchRow}
use graph_engineering.Runtime.Queries.{find_node, graph_node, traversals}
use graph_engineering.Models.Reports.{budget_exhausted}
use graph_engineering.Runtime.Routes.{route_result, repairs_exhausted, is_repair}
use graph_engineering.Runtime.Following.{Routable, route_result_follows, route_result_exhausted}
use graph_engineering.Runtime.Limits.{node_budget_limit_reached}
use graph_engineering.Runtime.Finish.{finish, terminate}
use graph_engineering.Runtime.Attempts.{
  record_attempt, start_row, new_attempt, counts_call, begin_attempt,
}
use graph_engineering.Runtime.Recovery.{recover, unconfirmed}
use graph_engineering.Runtime.Recovering.{recover_refuses}
use graph_engineering.Models.Topology.{Has, Joins, JoinsParallel, validate_static_topology_lem}
use graph_engineering.Runtime.Costs.{
  reserve_cost, check_reservation, reserve_body, reserve_found, reserve_new, node_admits,
}
use graph_engineering.Runtime.Conditions.{select_edge, eligible, condition_matches, status_text}
use graph_engineering.Runtime.Joins.{join_results, is_finished}
use graph_engineering.Runtime.Control.{
  VerifierControl, control, change_state, transition, apply_transition, record_intent, cancel,
}
use graph_engineering.Runtime.Reports.{final_report, finish_reports, crash_leaves_no_report}
use graph_engineering.Runtime.Starts.{start_attempt_returns, start_attempt_raises}
use graph_engineering.Runtime.Verdicts.{validated-settled}
use graph_engineering.Runtime.Routing.{CanFollow, select_edge_first, select_edge-none}
use graph_engineering.Runtime.Reservations.{
  reserve_cost_again, reserve_cost_within, reserve_cost_refuses,
}
use graph_engineering.Runtime.Joining.{Attained, Below, join_results_joins}
use graph_engineering.Runtime.Controls.{Allowed, Controlled, control_changes, control_query_writes}
use graph_engineering.Runtime.Steps.Absorbing.{Reach-IsEnded}
use graph_engineering.Runtime.Steps.Ended.{IsEnded}
use graph_engineering.Runtime.Steps.{here, next, starts, create_run-Reach-Inv}

abbrev no_config : Config
no_config = record { external = false; verifier_id = none; verifier_revision = none }

abbrev plain : String → NodeType → Node
plain id type = record {
  node_id = id;
  node_type = type;
  config = no_config;
  budget = none;
  subgraph = none;
  parallel = none;
  join = none;
}

abbrev status_is : String → Option RouteCondition
status_is value = some (record {
  field = RouteField.result_status;
  operator = RouteOperator.equals;
  value = scalar (text value);
})

abbrev edges : List Edge
edges =
    record {
      from_node = "build";
      to_node = "check";
      condition = status_is "succeeded";
      max_iterations = none;
    }
    ∷ record {
      from_node = "check";
      to_node = "build";
      condition = status_is "failed";
      max_iterations = some 2;
    }
    ∷ []

abbrev graph : ExecutionGraph
graph = record {
  graph_id = "g";
  contract_id = "c";
  contract_revision = 1;
  entry_node_id = "build";
  nodes = plain "build" NodeType.agent ∷ plain "check" NodeType.verifier ∷ [];
  edges = edges;
}

abbrev budget : Budget
budget = record {
  max_duration_seconds = 60;
  max_executor_calls = 3;
  max_repair_iterations = 1;
  max_cost_units = some 10;
}

abbrev alone : RunRelationship
alone = record { run_id = "r"; parent_run_id = none; supersedes_run_id = none }

abbrev empty : Database
empty = record { runs = []; intents = []; metadata = [] }

abbrev refs : String → ℕ → String
refs run_id number = run_id

abbrev hash : ExecutionGraph → String
hash g = g.graph_id

abbrev created : Run
created = new_run "r" graph "g" "k" budget alone none 0 empty

abbrev value_or : Run → Except Run → Run
value_or r (ok s) = s
value_or r (raise e) = r

abbrev first : Run
first = value_or created (create_run refs hash "r" graph "k" budget alone none 0 empty)

abbrev build : Node
build = plain "build" NodeType.agent

abbrev money : BudgetRow
money = record {
  max_duration_seconds = 60;
  max_executor_calls = 3;
  max_repair_iterations = 1;
  max_cost_units = some 10;
  executor_calls = 0;
  repair_iterations = 0;
  cost_units = some 0;
  started_at = 0;
}

abbrev gone : Run
gone = record created { status = RunStatus.cancelled; terminal_reason = some human_cancelled }

abbrev first_attempt : AttemptId
first_attempt = record { node_id = "build"; number = 1 }

abbrev charged : Run
charged = (reserve_cost graph "q" 3 none created).1

abbrev no_verifier : VerifierControl
no_verifier = record { cancel_for = none; cancel = none }

abbrev interruption : StateChangeControlIntent
interruption = record {
  intent_id = "i";
  run_id = "r";
  action = interrupt;
  proposed_contract_revision = none;
  restart_from = none;
}

abbrev interrupted : Run
interrupted = (control no_verifier (state_change interruption) created).1

abbrev question : QueryControlIntent
question = record { intent_id = "i"; run_id = "r"; action = query_progress }

abbrev branch : String → BranchStatus → List String → BranchResult
branch id status details = record {
  branch_id = id;
  status = status;
  summary = "done";
  completed_node_ids = [];
  changed_files = "a.txt" ∷ [];
  artifacts = [];
  failure_details = details;
  error = none;
}

abbrev left : BranchResult
left = branch "a" BranchStatus.succeeded []

abbrev right : BranchResult
right = branch "b" BranchStatus.failed ("tests" ∷ [])

abbrev built : ExecutorStatus → Option String → Result
built status reason = executor (record {
  status = status;
  summary = "built";
  changed_files = [];
  artifacts = [];
  failure_reason = reason;
  error = none;
})

abbrev first_edge : Edge
first_edge = record {
  from_node = "build";
  to_node = "check";
  condition = status_is "succeeded";
  max_iterations = none;
}

abbrev succeeds : Result
succeeds = built ExecutorStatus.succeeded none

abbrev fails : Result
fails = built ExecutorStatus.failed (some "no compiler")

abbrev stopped : Run
stopped = (start_attempt build 1 created).1

abbrev done_row : NodeRow
done_row = record {
  node_id = "build";
  node_type = NodeType.agent;
  status = NodeStatus.succeeded;
  attempt_count = 1;
  result = some succeeds;
  route_resolved = false;
  first_started_at = none;
  cost_units = 0;
  repair_iterations = 0;
}

abbrev finished_build : Run
finished_build = record created { nodes = done_row ∷ [] }

abbrev spent : BudgetRow
spent = record money { repair_iterations = 1 }

abbrev check : Node
check = plain "check" NodeType.verifier

abbrev failed_row : NodeRow
failed_row = record done_row {
  node_id = "check";
  node_type = NodeType.verifier;
  status = NodeStatus.failed;
  result = some fails;
}

abbrev back_edge : Edge
back_edge = record {
  from_node = "check";
  to_node = "build";
  condition = status_is "failed";
  max_iterations = some 2;
}

abbrev spent_run : Run
spent_run = record created { nodes = failed_row ∷ []; budget = some spent }
