-- ===== src/Runtime/Branches.antt =====
-- runtime/parallel.py: the rows of the branches of container nodes, and their cancellation behind a
-- barrier.
pub mod Ends
pub mod Attempts
pub mod Routes
pub mod Pool
pub mod Apart
pub mod Isolation
pub mod Moves
pub mod Others
use Prim.Native.String.{◌++◌ as text_append}
use graph_engineering.Prelude.{
  ℕ, ◌+◌, String, Bool, true, false, ◌&&◌, none, some, List, [], ◌∷◌, ◌++◌, map, Except, ok,
  required, assertion_error, ◌>>=◌, ◌==◌, if◌then◌else◌, any, update_where,
}
use graph_engineering.Models.Graph.{Node, NodeType, NestedNode, ParallelBranch, subgraph, parallel}
use graph_engineering.Models.Results.{BranchStatus}
use graph_engineering.Runtime.Rows.{NodeStatus, BranchState, BranchRow, BranchNodeRow}
use graph_engineering.Runtime.State.{Run, checkpoint}

-- ParallelCoordinator.initialize

branch_row : String → ℕ → ParallelBranch → BranchRow
branch_row container order b = record {
  container_node_id = container;
  branch_id = b.branch_id;
  branch_order = order;
  subgraph = b.subgraph;
  status = BranchState.pending;
  current_node_id = some b.subgraph.entry_node_id;
  result = none;
}

nested_row : String → ParallelBranch → NestedNode → BranchNodeRow
nested_row container b n = record {
  container_node_id = container;
  branch_id = b.branch_id;
  node_id = n.node_id;
  node_type = n.node_type;
  status = if n.node_id == b.subgraph.entry_node_id then NodeStatus.ready else NodeStatus.pending;
  attempt_count = 0;
  result = none;
  route_resolved = false;
  first_started_at = none;
  cost_units = 0;
  repair_iterations = 0;
}

unfoldable pub add_branches : String → ℕ → List ParallelBranch → Run → Run
unfolding branch_row nested_row
add_branches container order [] r = r
add_branches container order (b ∷ bs) r = add_branches container (order + 1) bs (record r {
  branches = r.branches ++ branch_row container order b ∷ [];
  branch_nodes = r.branch_nodes ++ map (nested_row container b) b.subgraph.nodes;
})

-- The branches of a container; a subgraph node is one branch named "subgraph".
unfoldable pub container_branches : NodeType → Node → Except (List ParallelBranch)
container_branches parallel node = do
  spec ← required node.parallel assertion_error
  ok spec.branches
container_branches subgraph node = do
  g ← required node.subgraph assertion_error
  ok (record { branch_id = "subgraph"; subgraph = g } ∷ [])
container_branches _ node = ok []

unfoldable pub initialize : List Node → Run → Except Run
unfolding container_branches add_branches
initialize [] r = ok r
initialize (n ∷ ns) r = do
  branches ← container_branches n.node_type n
  initialize ns (add_branches n.node_id 0 branches r)

-- ParallelCoordinator.inherit: work that was under way starts again.

restart_branch : BranchState → BranchState
restart_branch BranchState.active = BranchState.pending
restart_branch s = s

abbrev pub restart_node : NodeStatus → NodeStatus
restart_node NodeStatus.running = NodeStatus.ready
restart_node s = s

unfoldable pub is_branch : String → String → BranchRow → Bool
is_branch container branch row = row.container_node_id == container && row.branch_id == branch

is_branch_node : BranchNodeRow → BranchNodeRow → Bool
is_branch_node saved row =
    row.container_node_id == saved.container_node_id
    && row.branch_id == saved.branch_id
    && row.node_id == saved.node_id

unfoldable pub inherit_branches : List BranchRow → List BranchRow → List BranchRow
unfolding restart_branch is_branch
inherit_branches [] rows = rows
inherit_branches (b ∷ bs) rows = inherit_branches bs (
    update_where (is_branch b.container_node_id b.branch_id)
      (λ row. record row {
        status = restart_branch b.status;
        current_node_id = b.current_node_id;
        result = b.result;
      })
      rows)

unfoldable pub inherit_nodes : List BranchNodeRow → List BranchNodeRow → List BranchNodeRow
unfolding is_branch_node
inherit_nodes [] rows = rows
inherit_nodes (n ∷ ns) rows = inherit_nodes ns (
    update_where (is_branch_node n)
      (λ row. record row {
        status = restart_node n.status;
        attempt_count = n.attempt_count;
        result = n.result;
        route_resolved = n.route_resolved;
        first_started_at = n.first_started_at;
        cost_units = n.cost_units;
        repair_iterations = n.repair_iterations;
      })
      rows)

-- ParallelCoordinator._cancel_branches

abbrev pub is_pending : BranchState → Bool
is_pending BranchState.pending = true
is_pending _ = false

-- status IN ('pending','active') or ('pending')
abbrev pub cancellable : Bool → BranchState → Bool
cancellable include_active BranchState.pending = true
cancellable include_active BranchState.active = include_active
cancellable include_active (BranchState.finished s) = false

unfoldable pub cancel_row : String → BranchRow → BranchRow
cancel_row reason b = record b {
  status = BranchState.finished BranchStatus.cancelled;
  result = some (record {
    branch_id = b.branch_id;
    status = BranchStatus.cancelled;
    summary = text_append "branch cancelled by durable " (text_append reason " barrier");
    completed_node_ids = [];
    changed_files = [];
    artifacts = [];
    failure_details = [];
    error = none;
  });
}

unfoldable pub cancel_branches : String → Bool → Run → Run
unfolding cancel_row
cancel_branches reason include_active r =
    if any (λ b. cancellable include_active b.status) r.branches
    then checkpoint (text_append "parallel_" (text_append reason "_barrier")) (record r {
      branches =
          update_where (λ b. cancellable include_active b.status) (cancel_row reason) r.branches;
    })
    else r

abbrev pub cancel_pending : String → Run → Run
cancel_pending reason = cancel_branches reason false

abbrev pub cancel_incomplete : String → Run → Run
cancel_incomplete reason = cancel_branches reason true
