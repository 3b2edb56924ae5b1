-- ===== src/Runtime/Attempts.antt =====
-- _start_attempt, _persist_result and _latest_attempt_id of engine.py. One reading of the clock
-- serves the whole of an attempt's start.
use graph_engineering.Prelude.{
  ℕ, ◌+◌, String, Bool, true, false, not, ◌&&◌, none, some, List, [], ◌∷◌, ◌++◌, Except, Checked,
  ok, raise, require, required, runtime_invariant, budget_exhausted, ◌>>=◌, ◌>>◌, ◌==◌, is_none,
  coalesce, leb, ltb, if◌then◌else◌, any, least, select,
}
use graph_engineering.Models.Common.{Artifact, truthy}
use graph_engineering.Models.Graph.{Node, NodeType, is_container}
use graph_engineering.Models.Results.{
  Result, ExecutorStatus, VerifierStatus, BranchStatus, VerifierResult, executor, verifier,
  parallel,
}
use graph_engineering.Runtime.Rows.{
  NodeStatus, NodeRow, AttemptId, AttemptRow, BudgetRow, HandleRow, TriggerState, Role, is_ready,
}
use graph_engineering.Runtime.State.{Run, Exec, Body, transaction, seal}
use graph_engineering.Runtime.Queries.{
  find_node, update_node, update_attempt, update_handle, is_running_status,
}
use graph_engineering.Runtime.Limits.{node_budget_limit_reached}
use graph_engineering.Runtime.Artifacts.{register_artifacts}

-- count_call: containers and joins call no executor.
abbrev pub counts_call : NodeType → Bool
counts_call t = not (is_container t)

abbrev pub is_verifier_node : NodeType → Bool
is_verifier_node NodeType.verifier = true
is_verifier_node _ = false

unfoldable pub start_row : ℕ → ℕ → NodeRow → NodeRow
start_row number now row = record row {
  status = NodeStatus.running;
  attempt_count = number;
  result = none;
  route_resolved = false;
  first_started_at = some (coalesce row.first_started_at now);
}

unfoldable pub new_attempt : String → ℕ → AttemptRow
new_attempt node_id number = record {
  node_id = node_id;
  attempt_number = number;
  status = NodeStatus.running;
  result = none;
}

unfoldable pub charge_call : Bool → BudgetRow → BudgetRow
charge_call counted b = if counted then record b { executor_calls = b.executor_calls + 1 } else b

-- The default of verifier_id is the node's own id, which is not the qualified one inside a branch.
new_handle : String → Node → HandleRow
new_handle own_id node = record {
  node_id = node.node_id;
  trigger_state = TriggerState.triggering;
  handle = none;
  verifier_id = some (coalesce node.config.verifier_id own_id);
  verifier_revision = some (coalesce node.config.verifier_revision 1);
  cancel_state = none;
  residual_effect = none;
}

-- INSERT INTO external_handles ... ON CONFLICT DO UPDATE SET trigger_state, handle
trigger_handle : String → Node → List HandleRow → List HandleRow
unfolding new_handle
trigger_handle own_id node rows =
    if any (λ h. h.node_id == node.node_id) rows
    then update_handle node.node_id
        (λ h. record h { trigger_state = TriggerState.triggering; handle = none }) rows
    else rows ++ new_handle own_id node ∷ []

unfoldable pub trigger_external_as : String → Node → List HandleRow → List HandleRow
unfolding trigger_handle
trigger_external_as own_id node rows =
    if is_verifier_node node.node_type && node.config.external
    then trigger_handle own_id node rows
    else rows

trigger_external : Node → List HandleRow → List HandleRow
unfolding trigger_external_as
trigger_external node = trigger_external_as node.node_id node

-- What the transaction of _start_attempt writes once its guards have passed.
unfoldable pub record_attempt : Node → ℕ → ℕ → BudgetRow → Run → Run
unfolding start_row new_attempt charge_call trigger_external
record_attempt node number now b r =
    seal "attempt_started" "node.started" (some node.node_id)
      (some (record { node_id = node.node_id; number = number }))
      (record r {
        nodes = update_node node.node_id (start_row number now) r.nodes;
        attempts = r.attempts ++ new_attempt node.node_id number ∷ [];
        budget = some (charge_call (counts_call node.node_type) b);
        handles = trigger_external node r.handles;
      })

unfoldable pub begin_attempt : Node → ℕ → Body AttemptId
begin_attempt node now r = do
  require (is_running_status r.status && is_none r.barrier)
      (runtime_invariant "execution barrier forbids a new attempt")
  b ← required r.budget budget_exhausted
  require (not (counts_call node.node_type && leb b.max_executor_calls b.executor_calls))
      budget_exhausted
  row ←
      required (find_node node.node_id r.nodes)
        (runtime_invariant "only a ready node can start an attempt")
  require (is_ready row.status) (runtime_invariant "only a ready node can start an attempt")
  require (not (node_budget_limit_reached node row false true now)) budget_exhausted
  let number = row.attempt_count + 1
  ok (record { node_id = node.node_id; number = number }, record_attempt node number now b r)

-- _start_attempt up to its flush of the events.
unfoldable pub start_attempt : Node → ℕ → Exec AttemptId
unfolding transaction begin_attempt
start_attempt node now = transaction (begin_attempt node now)

-- The whole method, with what the flush of the events gives.
unfoldable pub start_and_flush : Node → ℕ → Checked → Exec AttemptId
unfolding start_attempt
start_and_flush node now flush r =
    let (result, after) = start_attempt node now r in (result >>= λ id. flush >> ok id, after)

executor_node_status : ExecutorStatus → NodeStatus
executor_node_status ExecutorStatus.succeeded = NodeStatus.succeeded
executor_node_status ExecutorStatus.failed = NodeStatus.failed
executor_node_status ExecutorStatus.error = NodeStatus.error
executor_node_status ExecutorStatus.cancelled = NodeStatus.cancelled

verifier_node_status : VerifierStatus → NodeStatus
verifier_node_status VerifierStatus.pending = NodeStatus.running
verifier_node_status VerifierStatus.passed = NodeStatus.succeeded
verifier_node_status VerifierStatus.failed = NodeStatus.failed
verifier_node_status VerifierStatus.error = NodeStatus.error
verifier_node_status VerifierStatus.cancelled = NodeStatus.cancelled

branch_node_status : BranchStatus → NodeStatus
branch_node_status BranchStatus.succeeded = NodeStatus.succeeded
branch_node_status BranchStatus.failed = NodeStatus.failed
branch_node_status BranchStatus.blocked = NodeStatus.blocked
branch_node_status BranchStatus.error = NodeStatus.error
branch_node_status BranchStatus.cancelled = NodeStatus.cancelled

unfoldable pub node_status : Result → NodeStatus
unfolding executor_node_status verifier_node_status branch_node_status
node_status (executor e) = executor_node_status e.status
node_status (verifier v) = verifier_node_status v.status
node_status (parallel p) = branch_node_status p.status

abbrev pub result_artifacts : Result → List Artifact
result_artifacts (executor e) = e.artifacts
result_artifacts (verifier v) = v.artifacts
result_artifacts (parallel p) = p.artifacts

abbrev pub result_role : Result → Role
result_role (verifier v) = Role.verifier
result_role _ = Role.executor

-- The rows that a pending verifier's handle is written to.
unfoldable pub write_handle : Node → AttemptId → VerifierResult → Run → Run
write_handle node id v r = record r {
  handles =
      update_handle node.node_id
        (λ h. record h { trigger_state = TriggerState.checkpointed; handle = v.external_handle })
        r.handles;
  attempts = update_attempt id (λ a. record a { result = some (verifier v) }) r.attempts;
}

unfoldable pub keep_handle : Node → AttemptId → VerifierResult → Body Unit
unfolding write_handle
keep_handle node id v r = do
  r' ← register_artifacts node.node_id Role.verifier v.artifacts (write_handle node id v r)
  ok (tt, seal "external_handle_checkpointed" "verifier.pending" (some node.node_id) (some id) r')

-- The rows that a finished result is written to.
unfoldable pub write_result : Node → AttemptId → Result → Run → Run
write_result node id result r =
    let status = node_status result in
    record r {
      attempts =
          update_attempt id (λ a. record a { status = status; result = some result }) r.attempts;
      nodes =
          update_node node.node_id
            (λ n. record n { status = status; result = some result; route_resolved = false })
            r.nodes;
    }

unfoldable pub keep_result : Node → AttemptId → Result → Body Unit
unfolding write_result
keep_result node id result r = do
  r' ←
      register_artifacts node.node_id (result_role result) (result_artifacts result)
        (write_result node id result r)
  ok (tt, seal "result_checkpointed" "node.finished" (some node.node_id) (some id) r')

unfoldable pub persist_verifier : VerifierStatus → Node → AttemptId → VerifierResult → Exec Unit
unfolding transaction keep_handle keep_result
persist_verifier VerifierStatus.pending node id v r =
    if truthy v.external_handle
    then transaction (keep_handle node id v) r
    else (raise (runtime_invariant "pending Verifier result requires an external handle"), r)
persist_verifier _ node id v r = transaction (keep_result node id (verifier v)) r

unfoldable pub persist_result : Node → AttemptId → Result → Exec Unit
unfolding persist_verifier
persist_result node id (verifier v) = persist_verifier v.status node id v
persist_result node id result = transaction (keep_result node id result)

-- ORDER BY attempt_number DESC LIMIT 1
unfoldable pub latest_attempt_id : String → Run → Except AttemptId
latest_attempt_id node_id r = do
  row ←
      required
        (least (λ a b. ltb b.attempt_number a.attempt_number)
          (select (λ a. a.node_id == node_id) r.attempts))
        (runtime_invariant "running container node has no attempt")
  ok (record { node_id = row.node_id; number = row.attempt_number })
