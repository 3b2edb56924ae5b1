-- ===== src/Runtime/Branches/Moves.antt =====
-- _branch_step of runtime/parallel.py as a composition of the methods that it calls.
use graph_engineering.Prelude.{
  ℕ, String, Bool, true, false, Option, none, some, List, inl, inr, Except, ok, raise, value_error,
  budget_exhausted, Bool-cases, is_some, find_first,
}
use graph_engineering.Models.Graph.{Edge, Node, NestedNode, Subgraph}
use graph_engineering.Models.Results.{verifier, Result}
use graph_engineering.Runtime.Rows.{BranchAttemptRow, AttemptId, BranchNodeRow}
use graph_engineering.Runtime.State.{Run, Exec, continue}
use graph_engineering.Runtime.Branches.{is_branch}
use graph_engineering.Runtime.Branches.Ends.{block_branch}
use graph_engineering.Runtime.Branches.Attempts.{find_nested, qualified, start_branch_attempt}
use graph_engineering.Runtime.Branches.Routes.{
  Query, route_branch, persist_branch_result, continue_branch, continue_branch_external,
}
use graph_engineering.Runtime.Branches.Pool.{
  Boundary, container_subgraph, nested_node, kept_result, is_running_node, persist_invoked,
  after_start, start_nested, resume_nested, advance_nested, step_row, step_current, current_of,
  branch_step,
}

-- A relation on runs that the methods on one branch stay within.
pub record Moves (container branch : String) (R : Run → Run → Type 0) : Type 0 where
  pub stay : (r : Run) → R r r
  pub both : {r s t : Run} → R r s → R s t → R r t
  pub starts :
      (nested : NestedNode) (now : ℕ) (r : Run)
      → R r (start_branch_attempt container branch nested now r).1
  pub routes :
      (edges : List Edge) (node_id : String) (result : Result) (r : Run)
      → R r (route_branch edges container branch node_id result r).1
  pub persists :
      (edges : List Edge) (nested : NestedNode) (id : AttemptId) (result : Result) (r : Run)
      → R r (persist_branch_result edges container branch nested id result r).1
  pub blocks :
      (reason : String) (error_status : Bool) (r : Run)
      → R r (block_branch container branch reason error_status r)

module _ (container branch : String) (R : Run → Run → Type 0) (m : Moves container branch R)
    (w : Boundary) (invoked : (n : Node) (id : AttemptId) (r : Run) → R r (w.invoke n id r).1)
    (asked : (q : Query) (r : Run) → R r (w.ask q r).1) where
  continue_moves :
      {A B : Type 0} (result : Except A) {r s : Run} (f : A → Exec B)
      → R r s
      → ((a : A) → R s (f a s).1)
      → R r (continue result s f).1
  continue_moves (ok a) f h k = m.both h (k a)
  continue_moves (raise e) f h k = h

  invoked_moves :
      (edges : List Edge) (nested : NestedNode) (id : AttemptId) (result : Option Result) (r : Run)
      → R r (persist_invoked edges container branch nested id result r).1
  unfolding persist_invoked
  invoked_moves edges nested id none r = m.stay r
  invoked_moves edges nested id (some result) r = m.persists edges nested id result r

  after_moves :
      (edges : List Edge) (nested : NestedNode) (id : Except AttemptId) (r : Run)
      → R r (after_start w edges container branch nested id r).1
  unfolding after_start
  after_moves edges nested (ok id) r =
      let q = qualified container branch nested in
      continue_moves (w.invoke q id r).0 _ (invoked q id r)
        (λ result. invoked_moves edges nested id result (w.invoke q id r).1)
  after_moves edges nested (raise budget_exhausted) r = m.blocks _ false r
  after_moves edges nested (raise (value_error text)) r = m.stay r
  after_moves edges nested (raise _) r = m.stay r

  start_moves :
      (edges : List Edge) (nested : NestedNode) (now : ℕ) (r : Run)
      → R r (start_nested w edges container branch nested now r).1
  unfolding start_nested
  start_moves edges nested now r =
      let (id, after) = start_branch_attempt container branch nested now r in
      m.both (m.starts nested now r) (after_moves edges nested id after)

  resume_moves :
      (edges : List Edge) (nested : NestedNode) (resolved : Bool) (result : Option Result) (now : ℕ)
      (r : Run)
      → R r (resume_nested w edges container branch nested resolved result now r).1
  unfolding resume_nested
  resume_moves edges nested false (some result) now r =
      continue_moves (kept_result nested.node_type result) _ (m.stay r)
        (λ kept. m.routes edges nested.node_id kept r)
  resume_moves edges nested false none now r = start_moves edges nested now r
  resume_moves edges nested true result now r = start_moves edges nested now r

  answered_moves :
      (edges : List Edge) (nested : NestedNode) (query : Option Query)
      (attempt : Option BranchAttemptRow) (r : Run)
      → R r (continue_branch w.ask edges container branch nested query attempt r).1
  unfolding continue_branch
  answered_moves edges nested (some query) (some attempt) r =
      continue_moves (w.ask query r).0 _ (asked query r)
        (λ v. m.persists edges nested attempt.attempt_id (verifier v) (w.ask query r).1)
  answered_moves edges nested _ _ r = m.blocks _ true r

  external_moves :
      (edges : List Edge) (nested : NestedNode) (r : Run)
      → R r (continue_branch_external w.ask edges container branch nested r).1
  unfolding continue_branch_external
  external_moves edges nested r = answered_moves edges nested _ _ r

  advance_moves :
      (edges : List Edge) (nested : NestedNode) (row : BranchNodeRow) (now : ℕ) (r : Run)
      → R r (advance_nested w edges container branch nested row now r).1
  unfolding advance_nested
  advance_moves edges nested row now r = elim (Bool-cases (is_running_node row.status)) [
    | inl e ↦ rw e (external_moves edges nested r)
    | inr e ↦ rw e (resume_moves edges nested row.route_resolved row.result now r)
  ]

  row_moves :
      (g : Subgraph) (row : Option BranchNodeRow) (now : ℕ) (r : Run)
      → R r (step_row w g container branch row now r).1
  unfolding step_row
  row_moves g none now r = m.stay r
  row_moves g (some row) now r =
      continue_moves (nested_node g row.node_id) _ (m.stay r)
        (λ nested. advance_moves g.edges nested row now r)

  pub current_moves :
      (g : Subgraph) (current : Option String) (now : ℕ) (r : Run)
      → R r (step_current w g container branch current now r).1
  unfolding step_current
  current_moves g none now r = m.stay r
  current_moves g (some node_id) now r = row_moves g (find_nested container branch node_id r) now r

-- What the methods on a branch and the boundary stay within, a whole step of the branch does.
pub branch_step_moves :
    (w : Boundary) (node : Node) (branch : String) (R : Run → Run → Type 0)
    → Moves node.node_id branch R
    → ((n : Node) (id : AttemptId) (r : Run) → R r (w.invoke n id r).1)
    → ((q : Query) (r : Run) → R r (w.ask q r).1)
    → (now : ℕ) (r : Run) → R r (branch_step w node branch now r).1
unfolding branch_step
branch_step_moves w node branch R m invoked asked now r = elim (Bool-cases (is_some r.barrier)) [
  | inl e ↦ rw e (m.stay r)
  | inr e ↦ rw e (
      continue_moves node.node_id branch R m w invoked asked
        (container_subgraph node.node_type node branch) _ (m.stay r)
        (λ g.
          current_moves node.node_id branch R m w invoked asked g
            (current_of (find_first (is_branch node.node_id branch) r.branches)) now r))
]
