-- ===== src/Runtime/Loop/Progress.antt =====
-- _invoke of engine.py and step of parallel.py as sequences of the calls that Steps lists.
use graph_engineering.Runtime.Branches.Routes.{Query}
use graph_engineering.Prelude.{
  ℕ, String, true, Option, none, some, List, [], ◌∷◌, ◌≡◌, refl, inl, inr, Except, ok, raise,
  Bool-cases, is_some,
}
use graph_engineering.Models.Graph.{Node, NodeType, ExecutionGraph}
use graph_engineering.Runtime.Rows.{AttemptId}
use graph_engineering.Runtime.State.{Run, Exec, continue}
use graph_engineering.Runtime.Branches.Moves.{Moves, branch_step_moves}
use graph_engineering.Runtime.Branches.Pool.{
  Boundary, branch_step, run_branches, after_pool, pool_step, open_step, step, scheduled,
  step_limit,
}
use graph_engineering.Runtime.Boundaries.{
  World, joined, executed, called, invoke_with, innermost, boundary, invoke,
}
use graph_engineering.Runtime.Steps.{
  Step, Reach, here, next, Reach-trans, cancels_branches, starts_branch, routes_branch,
  persists_branch, blocks_branch,
}

module _ (graph : ExecutionGraph) where
  abbrev pub Leads : Run → Run → Type 0
  Leads r s = Reach graph r s

  pub one : {r s : Run} → Step graph r s → Leads r s
  one step = next here step

  pub continues :
      {A B : Type 0} (result : Except A) {r s : Run} (f : A → Exec B)
      → Leads r s
      → ((a : A) → result ≡ ok a → Leads s (f a s).1)
      → Leads r (continue result s f).1
  continues (ok a) f h k = Reach-trans h (k a refl)
  continues (raise e) f h k = h

  branch_moves : (container branch : String) → Moves container branch (Reach graph)
  branch_moves container branch = record {
    stay = λ r. here;
    both = λ h k. Reach-trans h k;
    starts = λ nested now r. one (starts_branch container branch nested now);
    routes = λ edges node_id result r. one (routes_branch container branch edges node_id result);
    persists =
        λ edges nested id result r. one (persists_branch container branch edges nested id result);
    blocks = λ reason error_status r. one (blocks_branch container branch reason error_status);
  }

  module _ (b : Boundary)
      (invoked : (n : Node) (id : AttemptId) (r : Run) → Leads r (b.invoke n id r).1)
      (asked : (q : Query) (r : Run) → Leads r (b.ask q r).1) where
    branches_reach :
        (node : Node) (ids : List String) (now : ℕ) (r : Run)
        → Leads r (run_branches b node ids now r).1
    unfolding run_branches
    branches_reach node [] now r = here
    branches_reach node (id ∷ ids) now r =
        Reach-trans
          (branch_step_moves b node id (Reach graph) (branch_moves node.node_id id) invoked asked
            now r)
          (branches_reach node ids now (branch_step b node id now r).1)

    after_reach :
        (node : Node) (stop : Option String) (r : Run) → Leads r (after_pool node stop r).1
    unfolding after_pool
    after_reach node (some reason) r = one (cancels_branches reason true)
    after_reach node none r = here

    pub step_reach : (node : Node) (now : ℕ) (r : Run) → Leads r (step b node now r).1
    unfolding step open_step pool_step
    step_reach node now r = elim (Bool-cases (is_some r.barrier)) [
      | inl e ↦ rw e here
      | inr e ↦ rw e (
          continues (step_limit node.node_type node) _ here λ limit _.
            let ids = scheduled node.node_id limit r in
            continues (run_branches b node ids now r).0 _ (branches_reach node ids now r)
              (λ _ _. after_reach node _ (run_branches b node ids now r).1))
    ]

  module _ (w : World)
      (executes : (n : Node) (id : AttemptId) (r : Run) → Leads r (w.execute n id r).1)
      (queries : (q : Query) (r : Run) → Leads r (w.query q r).1) where
    called_reach :
        (b : Boundary)
        (invoked : (n : Node) (id : AttemptId) (r : Run) → Leads r (b.invoke n id r).1)
        (asked : (q : Query) (r : Run) → Leads r (b.ask q r).1) (t : NodeType) (node : Node)
        (id : AttemptId) (now : ℕ) (r : Run)
        → Leads r (called b w t node id now r).1
    unfolding called joined executed
    called_reach b invoked asked NodeType.parallel node id now r =
        step_reach b invoked asked node now r
    called_reach b invoked asked NodeType.subgraph node id now r =
        step_reach b invoked asked node now r
    called_reach b invoked asked NodeType.join node id now r = here
    called_reach b invoked asked _ node id now r = executes node id r

    pub boundary_reach :
        (now : ℕ) (node : Node) (id : AttemptId) (r : Run)
        → Leads r ((boundary w now).invoke node id r).1
    unfolding boundary invoke_with innermost
    boundary_reach now node id r =
        called_reach (innermost w) (λ n i s. here) queries node.node_type node id now r

    pub invoke_reach :
        (now : ℕ) (node : Node) (id : AttemptId) (r : Run) → Leads r (invoke w now node id r).1
    unfolding invoke invoke_with
    invoke_reach now node id r =
        called_reach (boundary w now) (boundary_reach now) queries node.node_type node id now r
