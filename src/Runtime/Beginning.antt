-- ===== src/Runtime/Beginning.antt =====
-- Theorems on the run that create_run of engine.py returns.
use graph_engineering.Prelude.{
  ℕ, ◌+◌, String, false, Option, none, some, List, [], ◌∷◌, map, ◌≡◌, refl, sym, subst, ap, ◌∙◌,
  arith, ok, All, >>=-eq-ok, find_first, ◌==◌,
}
use graph_engineering.Models.Common.{Budget, RunRelationship, RestartFrom}
use graph_engineering.Models.Graph.{ExecutionGraph, Node, ParallelBranch}
use graph_engineering.Models.Reports.{RunStatus}
use graph_engineering.Runtime.Rows.{NodeRow, is_running}
use graph_engineering.Runtime.State.{Run}
use graph_engineering.Runtime.Branches.{add_branches, container_branches, initialize}
use graph_engineering.Runtime.Lineage.{Source, run_exists}
use graph_engineering.Runtime.Creation.{
  Database, row_of, initial_rows, saved_nodes, new_run, inherit, create_run,
}
use graph_engineering.Runtime.Invariant.Creating.{create_run_cases}

-- A step that writes only rows of branches and of their nodes.
abbrev Grown : Run → Run → Type 0
Grown r s = s ≡ record r { branches = s.branches; branch_nodes = s.branch_nodes }

Grown-trans : (r s t : Run) → Grown r s → Grown s t → Grown r t
Grown-trans r s t h k =
    k
    ∙ ap {A = Run} {B = Run}
        (λ x. record x { branches = t.branches; branch_nodes = t.branch_nodes }) h

add_branches-Grown :
    (container : String) (order : ℕ) (bs : List ParallelBranch) (r : Run)
    → Grown r (add_branches container order bs r)
unfolding add_branches
add_branches-Grown container order [] r = refl
add_branches-Grown container order (b ∷ bs) r =
    let s = add_branches container order (b ∷ []) r in
    Grown-trans r s (add_branches container (order + 1) bs s) refl
      (add_branches-Grown container (order + 1) bs s)

initialize-Grown : (nodes : List Node) (r s : Run) → initialize nodes r ≡ ok s → Grown r s
unfolding initialize
initialize-Grown [] r s e = let same : r ≡ s = ground arith in subst (Grown r) same refl
initialize-Grown (n ∷ ns) r s e =
    let (bs, p, q) = >>=-eq-ok (container_branches n.node_type n) _ e in
    Grown-trans r (add_branches n.node_id 0 bs r) s (add_branches-Grown n.node_id 0 bs r)
      (initialize-Grown ns (add_branches n.node_id 0 bs r) s q)

row_of-idle :
    (entry : String) (n : Node) (found : Option NodeRow)
    → (is_running (row_of entry n found).status ≡ false)
      × ((row_of entry n found).node_id ≡ n.node_id)
unfolding row_of
row_of-idle entry n none = (ground arith, refl)
row_of-idle entry n (some row) = (ground arith, refl)

initial_rows-idle :
    (entry : String) (saved : List NodeRow) (nodes : List Node)
    → All (λ (n : NodeRow). is_running n.status ≡ false) (initial_rows entry saved nodes)
unfolding initial_rows
initial_rows-idle entry saved [] = tt
initial_rows-idle entry saved (n ∷ ns) = (
  (row_of-idle entry n (find_first (λ row. row.node_id == n.node_id) saved)).0,
  initial_rows-idle entry saved ns,
)

initial_rows-node_id :
    (entry : String) (saved : List NodeRow) (nodes : List Node)
    → map (λ n. n.node_id) (initial_rows entry saved nodes) ≡ map (λ n. n.node_id) nodes
unfolding initial_rows
initial_rows-node_id entry saved [] = refl
initial_rows-node_id entry saved (n ∷ ns) =
    rw ((row_of-idle entry n (find_first (λ row. row.node_id == n.node_id) saved)).1)
      (ap (λ ids. n.node_id ∷ ids) (initial_rows-node_id entry saved ns))

inherit-nodes : (source : Option Source) (r : Run) → (inherit source r).nodes ≡ r.nodes
unfolding inherit
inherit-nodes none r = refl
inherit-nodes (some x) r = refl

-- What inherit leaves, beside the nodes.
inherit-head :
    (source : Option Source) (r : Run)
    → let s = inherit source r in
      (s.run_id ≡ r.run_id)
      × (s.status ≡ r.status)
      × (s.barrier ≡ r.barrier)
      × (s.attempts ≡ r.attempts)
      × (s.report ≡ r.report)
unfolding inherit
inherit-head none r = (refl, refl, refl, refl, refl)
inherit-head (some x) r = (refl, refl, refl, refl, refl)

module _ (refs : String → ℕ → String) (sha256 : ExecutionGraph → String) (run_id : String)
    (graph : ExecutionGraph) (contract_hash : String) (budget : Budget) (rel : RunRelationship)
    (restart : Option RestartFrom) (now : ℕ) (db : Database) (r : Run) where
  -- A run that create_run returns, from a checkpoint or not, has an identifier that no run had, is
  -- running with no barrier, no attempt and no report, and has one row for each node of the graph, in
  -- their order, none of which is running.
  pub create_run_starts :
      create_run refs sha256 run_id graph contract_hash budget rel restart now db ≡ ok r
      → (run_exists run_id db.runs ≡ false)
        × (r.run_id ≡ run_id)
        × (r.status ≡ RunStatus.running)
        × (r.barrier ≡ none)
        × (r.attempts ≡ [])
        × (r.report ≡ none)
        × (map (λ n. n.node_id) r.nodes ≡ map (λ n. n.node_id) graph.nodes)
        × All (λ (n : NodeRow). is_running n.status ≡ false) r.nodes
  unfolding new_run
  create_run_starts e =
      let (source, filled, valid, fresh, grown, made) =
        create_run_cases refs sha256 run_id graph contract_hash budget rel restart now db r e in
      let frame =
        initialize-Grown graph.nodes
          (new_run run_id graph (sha256 graph) contract_hash budget rel source now db) filled
          grown in
      let nodes = ap (λ x. x.nodes) made ∙ inherit-nodes source filled ∙ ap (λ x. x.nodes) frame in
      let (a, b, c, d, f) = inherit-head source filled in
      (
        fresh,
        ap (λ x. x.run_id) made ∙ a ∙ ap (λ x. x.run_id) frame,
        ap (λ x. x.status) made ∙ b ∙ ap (λ x. x.status) frame,
        ap (λ x. x.barrier) made ∙ c ∙ ap (λ x. x.barrier) frame,
        ap (λ x. x.attempts) made ∙ d ∙ ap (λ x. x.attempts) frame,
        ap (λ x. x.report) made ∙ f ∙ ap (λ x. x.report) frame,
        ap (map (λ n. n.node_id)) nodes
            ∙ initial_rows-node_id graph.entry_node_id (saved_nodes source) graph.nodes,
        subst (All (λ (n : NodeRow). is_running n.status ≡ false)) (sym nodes)
            (initial_rows-idle graph.entry_node_id (saved_nodes source) graph.nodes),
      )
