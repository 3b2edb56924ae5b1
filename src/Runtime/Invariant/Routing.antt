-- ===== src/Runtime/Invariant/Routing.antt =====
-- The invariant and _route_result of engine.py.
use graph_engineering.Prelude.{
  ℕ, String, Bool, true, false, Option, none, some, ◌≡◌, refl, arith, ok, Bool-cases, ◌⊎◌, inl, inr,
  All, All-update_where, All-find_first, is_some,
}
use graph_engineering.Models.Common.{Budget}
use graph_engineering.Models.Graph.{Edge, ExecutionGraph, Node}
use graph_engineering.Models.Results.{Result}
use graph_engineering.Runtime.Rows.{NodeRow}
use graph_engineering.Runtime.State.{Run, transaction}
use graph_engineering.Runtime.Queries.{graph_node, find_node}
use graph_engineering.Runtime.Conditions.{select_edge}
use graph_engineering.Runtime.Routes.{
  conclude, is_repair, repairs_exhausted, take_edge, follow_edge, finish_if_exhausted,
  dispatch_edge, route_row, route_found, route_result,
}
use graph_engineering.Runtime.Transactions.{transaction_keeps}
use graph_engineering.Runtime.Invariant.{Inv, settled, within}
use graph_engineering.Runtime.Invariant.Steps.{continue-Inv}
use graph_engineering.Runtime.Invariant.Ending.{finish-Inv, honor_barrier-Inv}

-- A repair that is not exhausted stays within the run's budget.
repair_in_budget :
    (repair : Bool) (e : Edge) (node_id : String) (own : Option Budget) (r : Run)
    → within r.budget ≡ true
    → repairs_exhausted repair own node_id r ≡ false
    → within (take_edge repair node_id e r).budget ≡ true
unfolding take_edge repairs_exhausted
repair_in_budget repair e node_id own r h x = ground arith

results_kept :
    (repair : Bool) (e : Edge) (node_id : String) {r : Run}
    → Inv r
    → All (λ (n : NodeRow). settled n.result ≡ true) (take_edge repair node_id e r).nodes
unfolding take_edge
results_kept repair e node_id h =
    All-update_where _ _ _ (λ x k. refl)
      (All-update_where _ _ _ (λ x k. k) (All-update_where _ _ _ (λ x k. ground arith) h.results))

take_edge-Inv :
    (repair : Bool) (e : Edge) (node_id : String) (own : Option Budget) {r : Run}
    → Inv r
    → repairs_exhausted repair own node_id r ≡ false
    → Inv (take_edge repair node_id e r)
take_edge-Inv repair e node_id own {r = r} h x = record {
  in_phase = unfold take_edge in h.in_phase;
  in_budget = repair_in_budget repair e node_id own r h.in_budget x;
  results = results_kept repair e node_id h;
}

-- The transaction of an edge commits what it found, or takes the edge.
pub follow_edge_cases :
    (graph : ExecutionGraph) (node_id : String) (result : Result) (e : Edge) (r : Run) (x : Bool)
    (r' : Run)
    → follow_edge graph node_id result e r ≡ ok (x, r')
    → (r' ≡ r)
      ⊎ ((n : Node) × (graph_node graph node_id ≡ ok n)
          × (repairs_exhausted (is_repair e result) n.budget node_id r ≡ false)
          × (r' ≡ take_edge (is_repair e result) node_id e r))
unfolding follow_edge
follow_edge_cases graph node_id result e r x r' h = ground arith

follow_edge-Inv :
    (graph : ExecutionGraph) (node_id : String) (result : Result) (e : Edge) {r : Run}
    → Inv r
    → (x : Bool) (r' : Run) → follow_edge graph node_id result e r ≡ ok (x, r')
    → Inv r'
follow_edge-Inv graph node_id result e {r = r} h x r' p =
    elim (follow_edge_cases graph node_id result e r x r' p) [
      | inl same ↦ rw same h
      | inr (n, _, left, taken) ↦
          rw taken (take_edge-Inv (is_repair e result) e node_id n.budget h left)
    ]

finish_if_exhausted-Inv :
    (exhausted : Bool) (now : ℕ) {r : Run} → Inv r → Inv (finish_if_exhausted exhausted now r).1
unfolding finish_if_exhausted
finish_if_exhausted-Inv true now h = finish-Inv _ _ _ now h refl
finish_if_exhausted-Inv false now h = h

dispatch_edge-Inv :
    (graph : ExecutionGraph) (node_id : String) (result : Result) (chosen : Option Edge) (now : ℕ)
    {r : Run}
    → Inv r
    → settled (some result) ≡ true
    → Inv (dispatch_edge graph node_id result chosen now r).1
unfolding dispatch_edge conclude
dispatch_edge-Inv graph node_id result none now h f = finish-Inv _ _ _ now h f
dispatch_edge-Inv graph node_id result (some e) now {r = r} h f =
    let after : Inv (transaction (follow_edge graph node_id result e) r).1 =
      transaction_keeps (follow_edge graph node_id result e) r Inv h
        (follow_edge-Inv graph node_id result e h) in
    continue-Inv (transaction (follow_edge graph node_id result e) r).0
      (λ exhausted. finish_if_exhausted exhausted now) after
      (λ exhausted. finish_if_exhausted-Inv exhausted now after)

route_row-Inv :
    (graph : ExecutionGraph) (node_id : String) (row : NodeRow) (result : Option Result) (now : ℕ)
    {r : Run}
    → Inv r
    → settled result ≡ true
    → Inv (route_row graph node_id row result now r).1
unfolding route_row
route_row-Inv graph node_id row none now h f = h
route_row-Inv graph node_id row (some result) now {r = r} h f =
    elim (Bool-cases row.route_resolved) [
      | inl e ↦ rw e h
      | inr e ↦ rw e (
          dispatch_edge-Inv graph node_id result
            (select_edge graph.edges r.edges node_id result row.attempt_count) now h f)
    ]

route_found-Inv :
    (graph : ExecutionGraph) (node_id : String) (found : Option NodeRow) (now : ℕ) {r : Run}
    → Inv r
    → find_node node_id r.nodes ≡ found
    → Inv (route_found graph node_id found now r).1
unfolding route_found
route_found-Inv graph node_id none now h e = h
route_found-Inv graph node_id (some row) now h e =
    route_row-Inv graph node_id row row.result now h
      (All-find_first (λ n. settled n.result ≡ true) _ _ h.results e)

pub route_result-Inv :
    (graph : ExecutionGraph) (node_id : String) (now : ℕ) {r : Run}
    → Inv r
    → Inv (route_result graph node_id now r).1
unfolding route_result
route_result-Inv graph node_id now {r = r} h = elim (Bool-cases (is_some r.barrier)) [
  | inl e ↦ rw e (honor_barrier-Inv now h)
  | inr e ↦ rw e (route_found-Inv graph node_id (find_node node_id r.nodes) now h refl)
]
