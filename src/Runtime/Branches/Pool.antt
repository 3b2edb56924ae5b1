-- ===== src/Runtime/Branches/Pool.antt =====
-- ParallelCoordinator.step and _branch_step of runtime/parallel.py. The branches that the pool runs are
-- taken one after another; what other threads do while an executor or a verifier works is part of what
-- `invoke` leaves.
use graph_engineering.Prelude.{
  ℕ, zero, suc, String, Bool, true, false, not, ◌&&◌, ◌||◌, Option, none, some, List, [], ◌∷◌,
  Except, Checked, ok, raise, required, runtime_invariant, assertion_error, value_error,
  budget_exhausted, ◌>>=◌, ◌==◌, is_some, ltb, eqb, if◌then◌else◌, find_first, select, text_lt,
}
use graph_engineering.Models.Graph.{Node, NodeType, NestedNode, Subgraph, Edge}
use graph_engineering.Models.Results.{
  Result, VerifierResult, ParallelResult, BranchResult, executor, verifier, parallel,
}
use graph_engineering.Runtime.Rows.{
  NodeStatus, AttemptId, Barrier, BranchState, BranchRow, BranchNodeRow,
}
use graph_engineering.Runtime.State.{Run, Exec, ◌>>>=◌, continue, reads}
use graph_engineering.Runtime.Joins.{aggregate, is_finished}
use graph_engineering.Runtime.Branches.{is_branch, cancel_incomplete}
use graph_engineering.Runtime.Branches.Ends.{block_branch, subgraph_result}
use graph_engineering.Runtime.Branches.Attempts.{start_branch_attempt, find_nested, qualified}
use graph_engineering.Runtime.Branches.Routes.{
  Query, route_branch, persist_branch_result, continue_branch_external,
}

-- What a step asks of the rest of the runtime: GraphRuntime._invoke for a nested node, and the
-- verifier's query.
pub record Boundary : Type 0 where
  pub invoke : Node → AttemptId → Exec (Option Result)
  pub ask : Query → Exec VerifierResult

-- _subgraph
unfoldable pub container_subgraph : NodeType → Node → String → Except Subgraph
container_subgraph NodeType.subgraph node branch = required node.subgraph assertion_error
container_subgraph _ node branch = do
  spec ← required node.parallel assertion_error
  b ←
      required (find_first (λ b. b.branch_id == branch) spec.branches)
        (runtime_invariant "parallel branch is missing")
  ok b.subgraph

-- _node
unfoldable pub nested_node : Subgraph → String → Except NestedNode
nested_node g node_id =
    required (find_first (λ n. n.node_id == node_id) g.nodes)
      (runtime_invariant "subgraph node is missing")

-- The model that the text of a kept result is read by.
unfoldable pub kept_result : NodeType → Result → Except Result
kept_result NodeType.verifier (verifier v) = ok (verifier v)
kept_result NodeType.verifier _ = raise (value_error "not a VerifierResult")
kept_result _ (executor e) = ok (executor e)
kept_result _ _ = raise (value_error "not an ExecutorResult")

abbrev pub is_running_node : NodeStatus → Bool
is_running_node NodeStatus.running = true
is_running_node _ = false

unfoldable pub persist_invoked :
    List Edge → String → String → NestedNode → AttemptId → Option Result → Exec Unit
unfolding persist_branch_result
persist_invoked edges container branch nested id none r = (ok tt, r)
persist_invoked edges container branch nested id (some result) r =
    persist_branch_result edges container branch nested id result r

-- What follows _start_attempt: a budget that is exhausted blocks the branch.
unfoldable pub after_start :
    Boundary → List Edge → String → String → NestedNode → Except AttemptId → Exec Unit
unfolding persist_invoked block_branch qualified
after_start w edges container branch nested (ok id) =
    w.invoke (qualified container branch nested) id >>>= λ result.
    persist_invoked edges container branch nested id result
after_start w edges container branch nested (raise budget_exhausted) =
    λ r. (ok tt, block_branch container branch "shared budget exhausted" false r)
after_start w edges container branch nested (raise error) = λ r. (raise error, r)

unfoldable pub start_nested : Boundary → List Edge → String → String → NestedNode → ℕ → Exec Unit
unfolding start_branch_attempt after_start
start_nested w edges container branch nested now r =
    let (id, after) = start_branch_attempt container branch nested now r in
    after_start w edges container branch nested id after

-- A row with a result that no edge has been selected for is routed; any other is started.
unfoldable pub resume_nested :
    Boundary → List Edge → String → String → NestedNode → Bool → Option Result → ℕ → Exec Unit
unfolding kept_result route_branch start_nested
resume_nested w edges container branch nested false (some result) now =
    reads (λ r. kept_result nested.node_type result) >>>= λ kept.
    route_branch edges container branch nested.node_id kept
resume_nested w edges container branch nested _ _ now =
    start_nested w edges container branch nested now

unfoldable pub advance_nested :
    Boundary → List Edge → String → String → NestedNode → BranchNodeRow → ℕ → Exec Unit
unfolding continue_branch_external resume_nested
advance_nested w edges container branch nested row now =
    if is_running_node row.status
    then continue_branch_external w.ask edges container branch nested
    else resume_nested w edges container branch nested row.route_resolved row.result now

unfoldable pub step_row :
    Boundary → Subgraph → String → String → Option BranchNodeRow → ℕ → Exec Unit
unfolding advance_nested nested_node
step_row w g container branch none now r =
    (raise (runtime_invariant "parallel branch current node is missing"), r)
step_row w g container branch (some row) now r =
    (reads (λ s. nested_node g row.node_id) >>>= λ nested.
    advance_nested w g.edges container branch nested row now)
      r

unfoldable pub step_current : Boundary → Subgraph → String → String → Option String → ℕ → Exec Unit
unfolding step_row find_nested
step_current w g container branch none now r = (ok tt, r)
step_current w g container branch (some node_id) now r =
    step_row w g container branch (find_nested container branch node_id r) now r

unfoldable pub current_of : Option BranchRow → Option String
current_of none = none
current_of (some b) = b.current_node_id

-- _branch_step, without its telemetry.
unfoldable pub branch_step : Boundary → Node → String → ℕ → Exec Unit
unfolding step_current container_subgraph current_of is_branch
branch_step w node branch now r =
    if is_some r.barrier
    then (ok tt, r)
    else continue (container_subgraph node.node_type node branch) r λ g s.
      step_current w g node.node_id branch
        (current_of (find_first (is_branch node.node_id branch) s.branches)) now s

-- ORDER BY CASE status WHEN 'active' THEN 0 ELSE 1 END, branch_order, branch_id
abbrev is_active : BranchState → Bool
is_active BranchState.active = true
is_active _ = false

comes_first : BranchRow → BranchRow → Bool
comes_first a b =
    if is_active a.status && not (is_active b.status)
    then true
    else if is_active b.status && not (is_active a.status)
    then false
    else ltb a.branch_order b.branch_order
      || (eqb a.branch_order b.branch_order && text_lt a.branch_id b.branch_id)

insert_branch : BranchRow → List BranchRow → List BranchRow
unfolding comes_first
insert_branch row [] = row ∷ []
insert_branch row (b ∷ bs) = if comes_first b row then b ∷ insert_branch row bs else row ∷ b ∷ bs

order_branches : List BranchRow → List BranchRow
unfolding insert_branch
order_branches [] = []
order_branches (b ∷ bs) = insert_branch b (order_branches bs)

-- LIMIT ?
abbrev pub first_branches : ℕ → List BranchRow → List String
first_branches zero bs = []
first_branches (suc n) [] = []
first_branches (suc n) (b ∷ bs) = b.branch_id ∷ first_branches n bs

-- The branches that one step runs.
unfoldable pub scheduled : String → ℕ → Run → List String
unfolding order_branches
scheduled container limit r = first_branches limit (
    order_branches
      (select (λ b. b.container_node_id == container && not (is_finished b.status)) r.branches))

unfoldable pub step_limit : NodeType → Node → Except ℕ
step_limit NodeType.parallel node = do
  spec ← required node.parallel assertion_error
  ok spec.max_concurrency
step_limit _ node = ok 1

-- The first future that raised, all having run.
unfoldable pub first_error : Checked → Checked → Checked
first_error (raise error) later = raise error
first_error (ok a) later = later

unfoldable pub run_branches : Boundary → Node → List String → ℕ → Exec Unit
unfolding branch_step first_error
run_branches w node [] now r = (ok tt, r)
run_branches w node (b ∷ bs) now r =
    let (first, after) = branch_step w node b now r in
    let (rest, last) = run_branches w node bs now after in (first_error first rest, last)

abbrev pub stops : Option Barrier → Option String
stops (some Barrier.interrupt) = some "interrupt"
stops (some Barrier.cancel) = some "cancel"
stops _ = none

unfoldable pub first_branch : List BranchResult → Except BranchResult
first_branch [] = raise (value_error "list index out of range")
first_branch (b ∷ bs) = ok b

unfoldable pub aggregate_result : NodeType → Option ParallelResult → Except (Option Result)
unfolding first_branch subgraph_result
aggregate_result t none = ok none
aggregate_result NodeType.parallel (some p) = ok (some (parallel p))
aggregate_result _ (some p) = do
  b ← first_branch p.branches
  e ← subgraph_result b
  ok (some (executor e))

unfoldable pub after_pool : Node → Option String → Exec (Option Result)
unfolding aggregate_result
after_pool node (some reason) r = (ok none, cancel_incomplete reason r)
after_pool node none r = (aggregate node.node_id r >>= aggregate_result node.node_type, r)

unfoldable pub pool_step : Boundary → Node → ℕ → ℕ → Exec (Option Result)
unfolding run_branches after_pool scheduled
pool_step w node now limit r =
    (run_branches w node (scheduled node.node_id limit r) now >>>= λ _ t.
    after_pool node (stops t.barrier) t)
      r

unfoldable pub open_step : Boundary → Node → ℕ → Exec (Option Result)
unfolding step_limit pool_step
open_step w node now r = continue (step_limit node.node_type node) r (pool_step w node now)

-- step
unfoldable pub step : Boundary → Node → ℕ → Exec (Option Result)
unfolding open_step
step w node now r = if is_some r.barrier then (ok none, r) else open_step w node now r
