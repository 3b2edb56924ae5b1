-- ===== src/Runtime/Invariant/Creating.antt =====
-- The invariant and create_run of engine.py.
use graph_engineering.Prelude.{
  ℕ, ◌+◌, String, true, false, Option, none, some, List, [], ◌∷◌, ◌≡◌, refl, subst, arith, ok, All,
  All-find_first, >>=-eq-ok, find_first, ◌==◌,
}
use graph_engineering.Models.Common.{Budget, RunRelationship, RestartFrom}
use graph_engineering.Models.Graph.{ExecutionGraph, Node, ParallelBranch}
use graph_engineering.Runtime.Rows.{NodeRow}
use graph_engineering.Runtime.State.{Run, seal}
use graph_engineering.Runtime.Branches.{add_branches, container_branches, initialize}
use graph_engineering.Runtime.Lineage.{Source, run_exists, validate_run_lineage}
use graph_engineering.Runtime.Creation.{
  Database, row_of, initial_rows, saved_nodes, new_run, inherit, create_run,
}
use graph_engineering.Runtime.Invariant.{Inv, settled}
use graph_engineering.Runtime.Invariant.Steps.{seal-Inv}

add_branches-Inv :
    (container : String) (order : ℕ) (bs : List ParallelBranch) {r : Run}
    → Inv r
    → Inv (add_branches container order bs r)
unfolding add_branches
add_branches-Inv container order [] h = h
add_branches-Inv container order (b ∷ bs) h =
    add_branches-Inv container (order + 1) bs
      (record { in_phase = h.in_phase; in_budget = h.in_budget; results = h.results })

initialize-Inv : (nodes : List Node) {r r' : Run} → Inv r → initialize nodes r ≡ ok r' → Inv r'
unfolding initialize
initialize-Inv [] {r = r} {r' = r'} h e = let same : r ≡ r' = ground arith in subst Inv same h
initialize-Inv (n ∷ ns) h e =
    let (bs, p, q) = >>=-eq-ok (container_branches n.node_type n) _ e in
    initialize-Inv ns (add_branches-Inv n.node_id 0 bs h) q

inherit-Inv : (source : Option Source) {r : Run} → Inv r → Inv (inherit source r)
unfolding inherit
inherit-Inv none h = h
inherit-Inv (some s) h = record {
  in_phase = h.in_phase;
  in_budget = h.in_budget;
  results = h.results;
}

row_of-settled :
    (entry : String) (n : Node) (found : Option NodeRow)
    → ((row : NodeRow) → found ≡ some row → settled row.result ≡ true)
    → settled (row_of entry n found).result ≡ true
unfolding row_of
row_of-settled entry n none h = refl
row_of-settled entry n (some row) h = h row refl

initial_rows-settled :
    (entry : String) (saved : List NodeRow) (nodes : List Node)
    → All (λ (n : NodeRow). settled n.result ≡ true) saved
    → All (λ (n : NodeRow). settled n.result ≡ true) (initial_rows entry saved nodes)
unfolding initial_rows
initial_rows-settled entry saved [] h = tt
initial_rows-settled entry saved (n ∷ ns) h = (
  row_of-settled entry n (find_first (λ row. row.node_id == n.node_id) saved) (λ row e.
      All-find_first (λ m. settled m.result ≡ true) (λ row. row.node_id == n.node_id) saved h e),
  initial_rows-settled entry saved ns h,
)

new_run-Inv :
    (run_id : String) (graph : ExecutionGraph) (graph_hash contract_hash : String) (budget : Budget)
    (rel : RunRelationship) (source : Option Source) (now : ℕ) (db : Database)
    → All (λ (n : NodeRow). settled n.result ≡ true) (saved_nodes source)
    → Inv (new_run run_id graph graph_hash contract_hash budget rel source now db)
unfolding new_run
new_run-Inv run_id graph graph_hash contract_hash budget rel source now db h = record {
  in_phase = refl;
  in_budget = ground arith;
  results = initial_rows-settled graph.entry_node_id (saved_nodes source) graph.nodes h;
}

module _ (refs : String → ℕ → String) (sha256 : ExecutionGraph → String) (run_id : String)
    (graph : ExecutionGraph) (contract_hash : String) (budget : Budget) (rel : RunRelationship)
    (restart : Option RestartFrom) (now : ℕ) (db : Database) where
  -- The steps of a create_run that returns.
  pub create_run_cases :
      (r : Run)
      → create_run refs sha256 run_id graph contract_hash budget rel restart now db ≡ ok r
      → (s : Option Source) × (r₀ : Run) × (validate_run_lineage refs db.runs rel
            (sha256 graph)
            contract_hash
            restart
          ≡ ok s)
        × (run_exists run_id db.runs ≡ false)
        × (initialize graph.nodes
              (new_run run_id graph (sha256 graph) contract_hash budget rel s now db)
            ≡ ok r₀)
        × (r ≡ seal "run_created" "run.created" none none (inherit s r₀))
  unfolding create_run
  create_run_cases r e = ground arith

  -- A run that create_run returns satisfies the invariant, if the results of the checkpoint that
  -- it starts from are settled.
  pub create_run-Inv :
      {r : Run}
      → ((s : Option Source)
          → validate_run_lineage refs db.runs rel (sha256 graph) contract_hash restart ≡ ok s
          → All (λ (n : NodeRow). settled n.result ≡ true) (saved_nodes s))
      → create_run refs sha256 run_id graph contract_hash budget rel restart now db ≡ ok r
      → Inv r
  create_run-Inv {r = r} h e =
      let (s, r₀, valid, _, filled, made) = create_run_cases r e in
      let started : Inv r₀ =
        initialize-Inv graph.nodes
          (new_run-Inv run_id graph (sha256 graph) contract_hash budget rel s now db (h s valid))
          filled in
      rw made (seal-Inv "run_created" "run.created" none none (inherit-Inv s started))
