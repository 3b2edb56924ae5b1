-- ===== src/Runtime/Routes.antt =====
-- _route_result of engine.py.
use graph_engineering.Prelude.{
  ℕ, ◌+◌, String, Bool, true, false, ◌&&◌, ◌||◌, Option, none, some, ok, raise, runtime_invariant,
  ◌>>=◌, ◌==◌, is_some, leb, if◌then◌else◌,
}
use graph_engineering.Models.Common.{Error, Budget}
use graph_engineering.Models.Graph.{Edge, ExecutionGraph}
use graph_engineering.Models.Results.{Result}
use graph_engineering.Models.Reports.{
  TerminalStatus, TerminalReason, completed, acceptance_failed, execution_error, human_cancelled,
  budget_exhausted,
}
use graph_engineering.Runtime.Rows.{NodeStatus, NodeRow, BudgetRow}
use graph_engineering.Runtime.State.{Run, Exec, Body, transaction, seal, ◌>>>=◌, done}
use graph_engineering.Runtime.Queries.{graph_node, find_node, update_node, add_traversal}
use graph_engineering.Runtime.Conditions.{status_text, error_of, select_edge}
use graph_engineering.Runtime.Finish.{finish, honor_barrier_after_result}

-- How the run ends when no edge is selected, by the text of the status.
unfoldable pub verdict_of : String → Option Error → TerminalStatus × TerminalReason × Option Error
verdict_of status error =
    if status == "succeeded" || status == "passed"
    then (TerminalStatus.succeeded, completed, none)
    else if status == "failed"
    then (TerminalStatus.failed, acceptance_failed, none)
    else if status == "blocked"
    then (TerminalStatus.failed, budget_exhausted, none)
    else if status == "cancelled"
    then (TerminalStatus.cancelled, human_cancelled, none)
    else (TerminalStatus.error, execution_error, (if status == "error" then error else none))

unfoldable pub verdict : Result → TerminalStatus × TerminalReason × Option Error
unfolding verdict_of
verdict result = verdict_of (status_text result) (error_of result)

unfoldable pub conclude : Result → ℕ → Exec Unit
conclude result now = let (status, reason, error) = verdict result in finish status reason error now

-- A bounded edge taken on a failure is a repair.
unfoldable pub is_repair : Edge → Result → Bool
is_repair e result = is_some e.max_iterations && status_text result == "failed"

unfoldable pub run_repairs_spent : Option BudgetRow → Bool
run_repairs_spent none = false
run_repairs_spent (some b) = leb b.max_repair_iterations b.repair_iterations

unfoldable pub node_repairs_spent : Option Budget → Option NodeRow → Bool
node_repairs_spent (some b) (some row) = leb b.max_repair_iterations row.repair_iterations
node_repairs_spent _ _ = false

unfoldable pub repairs_exhausted : Bool → Option Budget → String → Run → Bool
unfolding run_repairs_spent node_repairs_spent
repairs_exhausted repair own node_id r =
    repair && (run_repairs_spent r.budget || node_repairs_spent own (find_node node_id r.nodes))

unfoldable pub charge_repair : Bool → Option BudgetRow → Option BudgetRow
charge_repair true (some b) = some (record b { repair_iterations = b.repair_iterations + 1 })
charge_repair _ b = b

unfoldable pub charge_node_repair : Bool → NodeRow → NodeRow
charge_node_repair true row = record row { repair_iterations = row.repair_iterations + 1 }
charge_node_repair false row = row

abbrev pub resolve_row : NodeRow → NodeRow
resolve_row row = record row { route_resolved = true }

abbrev pub ready_row : NodeRow → NodeRow
ready_row row = record row { status = NodeStatus.ready; result = none; route_resolved = false }

-- What the transaction writes when the edge is taken.
unfoldable pub take_edge : Bool → String → Edge → Run → Run
unfolding charge_repair charge_node_repair
take_edge repair node_id e r =
    seal "route_selected" "route.selected" (some node_id) none (record r {
      edges = add_traversal e.from_node e.to_node r.edges;
      budget = charge_repair repair r.budget;
      nodes = update_node e.to_node ready_row (
          update_node node_id resolve_row
            (update_node node_id (charge_node_repair repair) r.nodes));
      current_node_id = some e.to_node;
    })

-- The transaction; it returns `exhausted`.
unfoldable pub follow_edge : ExecutionGraph → String → Result → Edge → Body Bool
follow_edge graph node_id result e r = if is_some r.barrier then ok (false, r) else do
  node ← graph_node graph node_id
  if repairs_exhausted (is_repair e result) node.budget node_id r
      then ok (true, r)
      else ok (false, take_edge (is_repair e result) node_id e r)

unfoldable pub finish_if_exhausted : Bool → ℕ → Exec Unit
finish_if_exhausted exhausted now =
    if exhausted then finish TerminalStatus.failed budget_exhausted none now else done

unfoldable pub dispatch_edge : ExecutionGraph → String → Result → Option Edge → ℕ → Exec Unit
unfolding conclude finish_if_exhausted transaction
dispatch_edge graph node_id result none now = conclude result now
dispatch_edge graph node_id result (some e) now =
    transaction (follow_edge graph node_id result e) >>>= λ exhausted.
    finish_if_exhausted exhausted now

unfoldable pub route_row : ExecutionGraph → String → NodeRow → Option Result → ℕ → Exec Unit
unfolding dispatch_edge
route_row graph node_id row none now r =
    (raise (runtime_invariant "cannot route a node without a result"), r)
route_row graph node_id row (some result) now r =
    if row.route_resolved
    then (ok tt, r)
    else dispatch_edge graph node_id result
        (select_edge graph.edges r.edges node_id result row.attempt_count) now r

unfoldable pub route_found : ExecutionGraph → String → Option NodeRow → ℕ → Exec Unit
unfolding route_row
route_found graph node_id none now r =
    (raise (runtime_invariant "cannot route a node without a result"), r)
route_found graph node_id (some row) now r = route_row graph node_id row row.result now r

unfoldable pub route_result : ExecutionGraph → String → ℕ → Exec Unit
unfolding route_found
route_result graph node_id now r =
    if is_some r.barrier
    then honor_barrier_after_result now r
    else route_found graph node_id (find_node node_id r.nodes) now r
