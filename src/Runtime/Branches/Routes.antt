-- ===== src/Runtime/Branches/Routes.antt =====
-- ParallelCoordinator._route, _persist_result and _continue_external of runtime/parallel.py.
use graph_engineering.Prelude.{
  ℕ, ◌+◌, String, Bool, true, false, ◌&&◌, Option, none, some, List, [], ◌∷◌, ok, raise,
  runtime_invariant, ◌==◌, is_some, leb, ltb, if◌then◌else◌, find_first, least, select,
  update_where,
}
use graph_engineering.Models.Common.{truthy}
use graph_engineering.Models.Graph.{NestedNode, Edge}
use graph_engineering.Models.Results.{Result, VerifierResult, VerifierStatus, verifier}
use graph_engineering.Runtime.Rows.{
  NodeStatus, AttemptId, BudgetRow, EdgeRow, HandleRow, BranchNodeRow, BranchEdgeRow,
  BranchAttemptRow,
}
use graph_engineering.Runtime.State.{Run, Exec, Body, transaction, checkpoint, ◌>>>=◌, done}
use graph_engineering.Runtime.Conditions.{select_edge}
use graph_engineering.Runtime.Routes.{is_repair}
use graph_engineering.Runtime.Branches.{is_branch}
use graph_engineering.Runtime.Branches.Ends.{finish_branch, block_branch}
use graph_engineering.Runtime.Branches.Attempts.{
  find_nested, update_nested, keep_branch_handle, keep_branch_result, qualified,
}

-- The rows of parallel_branch_edge_traversals that a branch has.
unfoldable pub branch_counts : String → String → List BranchEdgeRow → List EdgeRow
branch_counts container branch [] = []
branch_counts container branch (e ∷ es) =
    if e.container_node_id == container && e.branch_id == branch
    then record {
      from_node = e.from_node;
      to_node = e.to_node;
      traversal_count = e.traversal_count;
    }
      ∷ branch_counts container branch es
    else branch_counts container branch es

abbrev is_branch_edge : String → String → Edge → BranchEdgeRow → Bool
is_branch_edge container branch e row =
    row.container_node_id == container
    && row.branch_id == branch
    && row.from_node == e.from_node
    && row.to_node == e.to_node

-- INSERT ... VALUES (..., 1) ON CONFLICT DO UPDATE SET traversal_count = traversal_count + 1
unfoldable pub add_branch_traversal :
    String → String → Edge → List BranchEdgeRow → List BranchEdgeRow
add_branch_traversal container branch e [] =
    record {
      container_node_id = container;
      branch_id = branch;
      from_node = e.from_node;
      to_node = e.to_node;
      traversal_count = 1;
    }
    ∷ []
add_branch_traversal container branch e (row ∷ rows) =
    if is_branch_edge container branch e row
    then record row { traversal_count = row.traversal_count + 1 } ∷ rows
    else row ∷ add_branch_traversal container branch e rows

-- budget is None or repair_iterations >= max_repair_iterations
unfoldable pub shared_repairs_exhausted : Option BudgetRow → Bool
shared_repairs_exhausted none = true
shared_repairs_exhausted (some b) = leb b.max_repair_iterations b.repair_iterations

unfoldable pub charge_shared_repair : Bool → Option BudgetRow → Option BudgetRow
charge_shared_repair true (some b) = some (record b { repair_iterations = b.repair_iterations + 1 })
charge_shared_repair _ b = b

unfoldable pub charge_nested_repair : Bool → BranchNodeRow → BranchNodeRow
charge_nested_repair true row = record row { repair_iterations = row.repair_iterations + 1 }
charge_nested_repair false row = row

abbrev resolve_nested : BranchNodeRow → BranchNodeRow
resolve_nested row = record row { route_resolved = true }

abbrev ready_nested : BranchNodeRow → BranchNodeRow
ready_nested row = record row { status = NodeStatus.ready; result = none; route_resolved = false }

-- What the transaction writes when the edge is taken.
unfoldable pub take_branch_edge : Bool → String → String → String → Edge → Run → Run
unfolding charge_shared_repair charge_nested_repair add_branch_traversal update_nested is_branch
take_branch_edge repair container branch node_id e r =
    checkpoint "parallel_route_selected" (record r {
      budget = charge_shared_repair repair r.budget;
      branch_edges = add_branch_traversal container branch e r.branch_edges;
      branch_nodes = update_nested container branch e.to_node ready_nested (
          update_nested container branch node_id resolve_nested
            (update_nested container branch node_id (charge_nested_repair repair) r.branch_nodes));
      branches =
          update_where (is_branch container branch)
            (λ b. record b { current_node_id = some e.to_node }) r.branches;
    })

-- The transaction; it returns `exhausted`.
unfoldable pub follow_branch_edge : String → String → String → Result → Edge → Body Bool
unfolding take_branch_edge shared_repairs_exhausted
follow_branch_edge container branch node_id result e r =
    if is_some r.barrier
    then ok (false, r)
    else if is_repair e result && shared_repairs_exhausted r.budget
    then ok (true, r)
    else ok (false, take_branch_edge (is_repair e result) container branch node_id e r)

unfoldable pub block_if_exhausted : Bool → String → String → Exec Unit
unfolding block_branch
block_if_exhausted true container branch r =
    (ok tt, block_branch container branch "shared repair budget exhausted" false r)
block_if_exhausted false container branch r = (ok tt, r)

unfoldable pub dispatch_branch_edge : String → String → String → Result → Option Edge → Exec Unit
unfolding block_if_exhausted transaction follow_branch_edge finish_branch
dispatch_branch_edge container branch node_id result none = finish_branch container branch result
dispatch_branch_edge container branch node_id result (some e) =
    transaction (follow_branch_edge container branch node_id result e) >>>= λ exhausted.
    block_if_exhausted exhausted container branch

unfoldable pub route_nested :
    List Edge → String → String → String → Result → Option BranchNodeRow → Exec Unit
unfolding dispatch_branch_edge branch_counts
route_nested edges container branch node_id result none r =
    (raise (runtime_invariant "parallel branch route source is missing"), r)
route_nested edges container branch node_id result (some row) r =
    dispatch_branch_edge container branch node_id result
      (select_edge edges (branch_counts container branch r.branch_edges) node_id result
        row.attempt_count)
      r

-- _route, with the edges of the branch's subgraph.
unfoldable pub route_branch : List Edge → String → String → String → Result → Exec Unit
unfolding route_nested find_nested
route_branch edges container branch node_id result r =
    route_nested edges container branch node_id result (find_nested container branch node_id r) r

unfoldable pub route_if_kept : Bool → List Edge → String → String → String → Result → Exec Unit
unfolding route_branch
route_if_kept true edges container branch node_id result =
    route_branch edges container branch node_id result
route_if_kept false edges container branch node_id result = done

unfoldable pub keep_and_route :
    List Edge → String → String → NestedNode → AttemptId → Result → Exec Unit
unfolding transaction keep_branch_result route_if_kept
keep_and_route edges container branch nested id result =
    transaction (keep_branch_result container branch nested id result) >>>= λ kept.
    route_if_kept kept edges container branch nested.node_id result

unfoldable pub persist_branch_verifier :
    VerifierStatus
    → List Edge
    → String
    → String
    → NestedNode
    → AttemptId
    → VerifierResult
    → Exec Unit
unfolding keep_and_route keep_branch_handle qualified
persist_branch_verifier VerifierStatus.pending edges container branch nested id v r =
    if truthy v.external_handle
    then (ok tt, keep_branch_handle (qualified container branch nested) id v r)
    else (raise (runtime_invariant "pending branch Verifier requires an external handle"), r)
persist_branch_verifier _ edges container branch nested id v r =
    keep_and_route edges container branch nested id (verifier v) r

unfoldable pub persist_branch_result :
    List Edge → String → String → NestedNode → AttemptId → Result → Exec Unit
unfolding persist_branch_verifier keep_and_route
persist_branch_result edges container branch nested id (verifier v) =
    persist_branch_verifier v.status edges container branch nested id v
persist_branch_result edges container branch nested id result =
    keep_and_route edges container branch nested id result

-- ORDER BY attempt_number DESC LIMIT 1
unfoldable pub latest_branch_attempt : String → String → String → Run → Option BranchAttemptRow
latest_branch_attempt container branch node_id r =
    least (λ a b. ltb b.attempt_number a.attempt_number)
      (select
        (λ a. a.container_node_id == container && a.branch_id == branch && a.node_id == node_id)
        r.branch_attempts)

-- What is queried: the handle, with the verifier that the row names.
pub record Query : Type 0 where
  pub verifier_id : Option String
  pub verifier_revision : Option ℕ
  pub handle : String

query_of : HandleRow → Option Query
query_of row = query_handle row row.handle
  where
    query_handle : HandleRow → Option String → Option Query
    query_handle row none = none
    query_handle row (some handle) = some (record {
      verifier_id = row.verifier_id;
      verifier_revision = row.verifier_revision;
      handle = handle;
    })

-- The query that _continue_external makes of a handle's row, if there is one.
unfoldable pub handle_query : Option HandleRow → Option Query
unfolding query_of
handle_query none = none
handle_query (some row) = query_of row

unfoldable pub continue_branch :
    (Query → Exec VerifierResult)
    → List Edge
    → String
    → String
    → NestedNode
    → Option Query
    → Option BranchAttemptRow
    → Exec Unit
unfolding persist_branch_result block_branch
continue_branch ask edges container branch nested (some query) (some attempt) r =
    (ask query >>>= λ v.
    persist_branch_result edges container branch nested attempt.attempt_id (verifier v))
      r
continue_branch ask edges container branch nested _ _ r =
    (ok tt, block_branch container branch "external trigger outcome is uncertain" true r)

-- _continue_external, where `ask` is the verifier's query.
unfoldable pub continue_branch_external :
    (Query → Exec VerifierResult) → List Edge → String → String → NestedNode → Exec Unit
unfolding continue_branch handle_query latest_branch_attempt qualified
continue_branch_external ask edges container branch nested r =
    continue_branch ask edges container branch nested
      (handle_query
        (find_first (λ h. h.node_id == (qualified container branch nested).node_id) r.handles))
      (latest_branch_attempt container branch nested.node_id r) r
