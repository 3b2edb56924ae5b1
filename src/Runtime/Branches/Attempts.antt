-- ===== src/Runtime/Branches/Attempts.antt =====
-- ParallelCoordinator._start_attempt and _persist_result of runtime/parallel.py. Routing, which follows
-- a finished result, is in Routes.
use Prim.Native.String.{◌++◌ as text_append}
use graph_engineering.Prelude.{
  ℕ, ◌+◌, String, Bool, true, false, not, ◌&&◌, Option, none, some, List, [], ◌∷◌, ◌++◌, ok,
  require, required, runtime_invariant, budget_exhausted, ◌>>=◌, ◌>>◌, ◌==◌, eqb, coalesce, leb,
  is_none, if◌then◌else◌, find_first, update_where,
}
use graph_engineering.Models.Graph.{Node, NestedNode}
use graph_engineering.Models.Results.{Result, VerifierResult, verifier}
use graph_engineering.Models.Reports.{is_terminal}
use graph_engineering.Runtime.Rows.{
  NodeStatus, NodeRow, AttemptId, BudgetRow, BranchState, BranchNodeRow, BranchAttemptRow,
  TriggerState, is_ready,
}
use graph_engineering.Runtime.State.{Run, Exec, Body, transaction, checkpoint, seal}
use graph_engineering.Runtime.Queries.{is_running_status, update_handle}
use graph_engineering.Runtime.Limits.{node_budget_limit_reached}
use graph_engineering.Runtime.Artifacts.{register_artifacts}
use graph_engineering.Runtime.Attempts.{
  charge_call, trigger_external_as, node_status, result_artifacts, result_role,
}
use graph_engineering.Runtime.Branches.{is_branch}

-- nested.model_copy(update={"node_id": f"{container}.{branch}.{nested}"})
unfoldable pub qualified : String → String → NestedNode → Node
qualified container branch n = record {
  node_id =
      text_append container (text_append "." (text_append branch (text_append "." n.node_id)));
  node_type = n.node_type;
  config = n.config;
  budget = n.budget;
  subgraph = none;
  parallel = none;
  join = none;
}

-- f"{run_id}:{container}:{branch}:{node}:{number}"
unfoldable pub branch_attempt_id : String → String → String → ℕ → AttemptId
branch_attempt_id container branch node_id number = record {
  node_id = text_append container (text_append ":" (text_append branch (text_append ":" node_id)));
  number = number;
}

abbrev pub is_nested : String → String → String → BranchNodeRow → Bool
is_nested container branch node_id row =
    row.container_node_id == container && row.branch_id == branch && row.node_id == node_id

unfoldable pub find_nested : String → String → String → Run → Option BranchNodeRow
find_nested container branch node_id r =
    find_first (is_nested container branch node_id) r.branch_nodes

unfoldable pub update_nested :
    String
    → String
    → String
    → (BranchNodeRow → BranchNodeRow)
    → List BranchNodeRow
    → List BranchNodeRow
update_nested container branch node_id = update_where (is_nested container branch node_id)

abbrev pub is_attempt_id : AttemptId → BranchAttemptRow → Bool
is_attempt_id id row = row.attempt_id.node_id == id.node_id && eqb row.attempt_id.number id.number

-- The columns of a row that _node_budget_limit_reached reads.
abbrev pub budget_columns : BranchNodeRow → NodeRow
budget_columns row = record {
  node_id = row.node_id;
  node_type = row.node_type;
  status = row.status;
  attempt_count = row.attempt_count;
  result = row.result;
  route_resolved = row.route_resolved;
  first_started_at = row.first_started_at;
  cost_units = row.cost_units;
  repair_iterations = row.repair_iterations;
}

unfoldable pub start_nested_row : ℕ → ℕ → BranchNodeRow → BranchNodeRow
start_nested_row number now row = record row {
  status = NodeStatus.running;
  attempt_count = number;
  result = none;
  route_resolved = false;
  first_started_at = some (coalesce row.first_started_at now);
}

new_branch_attempt : String → String → String → ℕ → BranchAttemptRow
unfolding branch_attempt_id
new_branch_attempt container branch node_id number = record {
  attempt_id = branch_attempt_id container branch node_id number;
  container_node_id = container;
  branch_id = branch;
  node_id = node_id;
  attempt_number = number;
  status = NodeStatus.running;
  result = none;
}

-- What the transaction writes once its guards have passed.
unfoldable pub record_branch_attempt : String → String → NestedNode → ℕ → ℕ → BudgetRow → Run → Run
unfolding qualified branch_attempt_id update_nested start_nested_row new_branch_attempt charge_call
    trigger_external_as is_branch
record_branch_attempt container branch nested number now b r =
    let id = branch_attempt_id container branch nested.node_id number in
    seal "parallel_attempt_started" "branch.node.started"
      (some (qualified container branch nested).node_id) (some id)
      (record r {
        branches =
            update_where (is_branch container branch)
              (λ row. record row { status = BranchState.active }) r.branches;
        branch_nodes =
            update_nested container branch nested.node_id (start_nested_row number now)
              r.branch_nodes;
        branch_attempts =
            r.branch_attempts ++ new_branch_attempt container branch nested.node_id number ∷ [];
        budget = some (charge_call true b);
        handles = trigger_external_as nested.node_id (qualified container branch nested) r.handles;
      })

unfoldable pub begin_branch_attempt : String → String → NestedNode → ℕ → Body AttemptId
unfolding find_nested branch_attempt_id record_branch_attempt
begin_branch_attempt container branch nested now r = do
  require (is_running_status r.status && is_none r.barrier)
      (runtime_invariant "execution barrier forbids a parallel branch attempt")
  b ← required r.budget budget_exhausted
  require (not (leb b.max_executor_calls b.executor_calls)) budget_exhausted
  row ←
      required (find_nested container branch nested.node_id r)
        (runtime_invariant "only a ready parallel branch node can start")
  require (is_ready row.status) (runtime_invariant "only a ready parallel branch node can start")
  require
      (not (
        node_budget_limit_reached (qualified container branch nested) (budget_columns row) false
          true now))
      budget_exhausted
  let number = row.attempt_count + 1
  ok (
    branch_attempt_id container branch nested.node_id number,
    record_branch_attempt container branch nested number now b r,
  )

unfoldable pub start_branch_attempt : String → String → NestedNode → ℕ → Exec AttemptId
unfolding transaction begin_branch_attempt
start_branch_attempt container branch nested now =
    transaction (begin_branch_attempt container branch nested now)

-- A pending verifier's handle.
unfoldable pub keep_branch_handle : Node → AttemptId → VerifierResult → Run → Run
keep_branch_handle node id v r = checkpoint "parallel_external_checkpointed" (record r {
  handles =
      update_handle node.node_id
        (λ h. record h { trigger_state = TriggerState.checkpointed; handle = v.external_handle })
        r.handles;
  branch_attempts =
      update_where (is_attempt_id id) (λ a. record a { result = some (verifier v) })
        r.branch_attempts;
})

-- The rows that a finished result is written to.
unfoldable pub write_branch_result : String → String → NestedNode → AttemptId → Result → Run → Run
unfolding update_nested
write_branch_result container branch nested id result r =
    let status = node_status result in
    record r {
      branch_attempts =
          update_where (is_attempt_id id) (λ a. record a { status = status; result = some result })
            r.branch_attempts;
      branch_nodes =
          update_nested container branch nested.node_id
            (λ n. record n { status = status; result = some result; route_resolved = false })
            r.branch_nodes;
    }

-- The writes of the transaction for a finished result.
unfoldable pub keep_open_result : String → String → NestedNode → AttemptId → Result → Body Bool
unfolding qualified write_branch_result
keep_open_result container branch nested id result r = do
  r' ←
      register_artifacts (qualified container branch nested).node_id (result_role result)
        (result_artifacts result) (write_branch_result container branch nested id result r)
  ok (true, checkpoint "parallel_result_checkpointed" r')

-- The transaction; it returns whether the run has not ended.
unfoldable pub keep_branch_result : String → String → NestedNode → AttemptId → Result → Body Bool
unfolding keep_open_result
keep_branch_result container branch nested id result r =
    if is_terminal r.status
    then ok (false, r)
    else keep_open_result container branch nested id result r
