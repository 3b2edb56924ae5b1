-- ===== src/Runtime/Queries.antt =====
-- The lookups and updates by key that the SQL statements of engine.py make, and what they change.
use graph_engineering.Prelude.{
  ℕ, ◌+◌, String, Bool, true, false, ◌&&◌, Option, none, some, List, [], ◌∷◌, Except, required,
  runtime_invariant, ◌==◌, if◌then◌else◌, find_first, update_where, eqb,
}
use graph_engineering.Models.Graph.{Node, ExecutionGraph}
use graph_engineering.Models.Reports.{RunStatus}
use graph_engineering.Runtime.Rows.{NodeRow, AttemptId, AttemptRow, EdgeRow, HandleRow}

-- GraphRuntime._node
unfoldable pub graph_node : ExecutionGraph → String → Except Node
graph_node graph node_id =
    required (find_first (λ n. n.node_id == node_id) graph.nodes)
      (runtime_invariant "persisted node is absent from Graph")

-- SELECT ... FROM nodes WHERE node_id = ?
abbrev pub find_node : String → List NodeRow → Option NodeRow
find_node node_id = find_first (λ row. row.node_id == node_id)

-- UPDATE nodes SET ... WHERE node_id = ?
abbrev pub update_node : String → (NodeRow → NodeRow) → List NodeRow → List NodeRow
update_node node_id = update_where (λ row. row.node_id == node_id)

abbrev pub is_attempt : AttemptId → AttemptRow → Bool
is_attempt id row = row.node_id == id.node_id && eqb row.attempt_number id.number

-- UPDATE attempts SET ... WHERE attempt_id = ?
abbrev pub update_attempt :
    AttemptId → (AttemptRow → AttemptRow) → List AttemptRow → List AttemptRow
update_attempt id = update_where (is_attempt id)

-- UPDATE external_handles SET ... WHERE node_id = ?
abbrev pub update_handle : String → (HandleRow → HandleRow) → List HandleRow → List HandleRow
update_handle node_id = update_where (λ row. row.node_id == node_id)

abbrev pub is_edge : String → String → EdgeRow → Bool
is_edge source target row = row.from_node == source && row.to_node == target

-- counts.get((from_node, to_node), 0)
abbrev count_of : Option EdgeRow → ℕ
count_of none = 0
count_of (some row) = row.traversal_count

unfoldable pub traversals : String → String → List EdgeRow → ℕ
traversals source target rows = count_of (find_first (is_edge source target) rows)

-- INSERT ... VALUES (..., 1) ON CONFLICT DO UPDATE SET traversal_count = traversal_count + 1
unfoldable pub add_traversal : String → String → List EdgeRow → List EdgeRow
add_traversal source target [] =
    record { from_node = source; to_node = target; traversal_count = 1 } ∷ []
add_traversal source target (row ∷ rows) =
    if is_edge source target row
    then record row { traversal_count = row.traversal_count + 1 } ∷ rows
    else row ∷ add_traversal source target rows

-- PersistedBarrierGuard.is_open, and the test of every transaction that starts an attempt.
abbrev pub is_running_status : RunStatus → Bool
is_running_status RunStatus.running = true
is_running_status _ = false
