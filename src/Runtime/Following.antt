-- ===== src/Runtime/Following.antt =====
-- Theorems on what _route_result of engine.py does with the edge that it selects.
use graph_engineering.Prelude.{
  ℕ, ◌+◌, String, Bool, true, false, Option, none, some, ◌≡◌, ◌≢◌, ◌≤◌, ◌⊎◌, inl, inr, refl, ok,
  if◌then◌else◌, arith, ◌==◌, ◌&&◌, is_some, Bool-cases, eq_iff, find_first, update_where,
  find_first-update_where, List, [], ◌∷◌, ap, sym, ◌∙◌,
}
use graph_engineering.Models.Common.{Budget}
use graph_engineering.Models.Graph.{Node, Edge, ExecutionGraph}
use graph_engineering.Models.Results.{Result}
use graph_engineering.Models.Reports.{RunStatus, TerminalStatus, budget_exhausted, is_terminal}
use graph_engineering.Runtime.Rows.{NodeStatus, NodeRow, BudgetRow}
use graph_engineering.Runtime.State.{Run, transaction}
use graph_engineering.Runtime.Queries.{find_node, update_node, graph_node, traversals}
use graph_engineering.Runtime.Conditions.{select_edge, status_text}
use graph_engineering.Runtime.Routes.{
  is_repair, run_repairs_spent, node_repairs_spent, charge_repair, charge_node_repair,
  repairs_exhausted, take_edge, resolve_row, ready_row, follow_edge, finish_if_exhausted,
  dispatch_edge, route_row, route_found, route_result,
}
use graph_engineering.Runtime.Routing.{traversals-add_traversal}
use graph_engineering.Runtime.Cancelling.{finish_open}

-- A repair is a bounded edge that is taken because the node has failed.
abbrev pub repairs : Edge → Result → ℕ
repairs e result = if is_some e.max_iterations && status_text result == "failed" then 1 else 0

-- The run, or the node that is left, has no repair left for the edge.
abbrev pub OutOfRepairs : Edge → Result → Node → NodeRow → Run → Type 0
OutOfRepairs e result node row r =
    (repairs e result ≡ 1)
    × (((b : BudgetRow) × (r.budget ≡ some b) × (b.max_repair_iterations ≤ b.repair_iterations))
        ⊎ ((own : Budget) × (node.budget ≡ some own)
            × (own.max_repair_iterations ≤ row.repair_iterations)))

spent_run :
    (o : Option BudgetRow)
    → run_repairs_spent o ≡ true
    → (b : BudgetRow) × (o ≡ some b) × (b.max_repair_iterations ≤ b.repair_iterations)
unfolding run_repairs_spent
spent_run none h = cc
spent_run (some b) h = (b, refl, ground arith)

spent_node :
    (o : Option Budget) (row : NodeRow)
    → node_repairs_spent o (some row) ≡ true
    → (b : Budget) × (o ≡ some b) × (b.max_repair_iterations ≤ row.repair_iterations)
unfolding node_repairs_spent
spent_node none row h = cc
spent_node (some b) row h = (b, refl, ground arith)

node_unlike :
    (id other : String) (f : NodeRow → NodeRow) (rows : List NodeRow)
    → ((row : NodeRow) → (f row).node_id ≡ row.node_id)
    → other ≢ id
    → find_node other (update_node id f rows) ≡ find_node other rows
unfolding find_first update_where
node_unlike id other f [] keep apart = refl
node_unlike id other f (row ∷ rows) keep apart =
    let rest = node_unlike id other f rows keep apart in
    elim (Bool-cases (row.node_id == id)) [
      | inl t ↦
          let own : row.node_id ≡ id = ground (arith, eq_iff row.node_id id) in
          let missed : (row.node_id == other) ≡ false = ground (arith, eq_iff row.node_id other) in
          rw t (rw (keep row) (rw missed rest))
      | inr t ↦ rw t (ap (λ o. if row.node_id == other then some row else o) rest)
    ]

charged_run :
    (repair : Bool) (b : BudgetRow)
    → charge_repair repair (some b)
      ≡ some (record b { repair_iterations = b.repair_iterations + (if repair then 1 else 0) })
unfolding charge_repair
charged_run true b = refl
charged_run false b =
    let same : b.repair_iterations ≡ b.repair_iterations + 0 = omega arith in
    ap (λ n. some (record b { repair_iterations = n })) same

charged_node :
    (repair : Bool) (row : NodeRow)
    → charge_node_repair repair row
      ≡ record row { repair_iterations = row.repair_iterations + (if repair then 1 else 0) }
unfolding charge_node_repair
charged_node true row = refl
charged_node false row =
    let same : row.repair_iterations ≡ row.repair_iterations + 0 = omega arith in
    ap (λ n. record row { repair_iterations = n }) same

charge_keeps_id :
    (repair : Bool) (row : NodeRow) → (charge_node_repair repair row).node_id ≡ row.node_id
unfolding charge_node_repair
charge_keeps_id true row = refl
charge_keeps_id false row = refl

-- The rows of the nodes when an edge is taken.
abbrev pub taken : Bool → String → Edge → List NodeRow → List NodeRow
taken repair node_id e rows =
    update_node e.to_node ready_row
      (update_node node_id resolve_row (update_node node_id (charge_node_repair repair) rows))

-- The row of the node that is left.
left_row :
    (repair : Bool) (node_id : String) (e : Edge) (rows : List NodeRow) {row : NodeRow}
    → node_id ≢ e.to_node
    → find_node node_id rows ≡ some row
    → find_node node_id (taken repair node_id e rows)
      ≡ some (record row {
        route_resolved = true;
        repair_iterations = row.repair_iterations + (if repair then 1 else 0);
      })
left_row repair node_id e rows {row = row} apart found =
    let is_own = λ (n : NodeRow). n.node_id == node_id in
    let charged =
      find_first-update_where is_own (charge_node_repair repair) rows {x = row}
        (λ n. ap (λ id. id == node_id) (charge_keeps_id repair n)) found in
    let resolved =
      find_first-update_where is_own resolve_row
        (update_node node_id (charge_node_repair repair) rows) (λ n. refl) charged in
    node_unlike e.to_node node_id ready_row _ (λ n. refl) apart
    ∙ resolved
    ∙ ap (λ n. some (resolve_row n)) (charged_node repair row)

-- The row of the node that the edge leads to.
reached_row :
    (repair : Bool) (node_id : String) (e : Edge) (rows : List NodeRow) {row : NodeRow}
    → e.to_node ≢ node_id
    → find_node e.to_node rows ≡ some row
    → find_node e.to_node (taken repair node_id e rows)
      ≡ some (record row { status = NodeStatus.ready; result = none; route_resolved = false })
reached_row repair node_id e rows {row = row} apart found =
    find_first-update_where (λ n. n.node_id == e.to_node) ready_row
      (update_node node_id resolve_row (update_node node_id (charge_node_repair repair) rows))
      {x = row} (λ n. refl)
      (node_unlike node_id e.to_node resolve_row _ (λ n. refl) apart
        ∙ node_unlike node_id e.to_node (charge_node_repair repair) rows (charge_keeps_id repair)
            apart
        ∙ found)

-- The row of any other node.
other_row :
    (repair : Bool) (node_id other : String) (e : Edge) (rows : List NodeRow)
    → other ≢ node_id
    → other ≢ e.to_node
    → find_node other (taken repair node_id e rows) ≡ find_node other rows
other_row repair node_id other e rows not_left not_reached =
    node_unlike e.to_node other ready_row _ (λ n. refl) not_reached
    ∙ node_unlike node_id other resolve_row _ (λ n. refl) not_left
    ∙ node_unlike node_id other (charge_node_repair repair) rows (charge_keeps_id repair) not_left

module _ (graph : ExecutionGraph) (node_id : String) (now : ℕ) (r : Run) (row : NodeRow)
    (result : Result) (e : Edge) (node : Node) where
  -- The node has a result that is not routed yet, and an edge is selected for it.
  pub record Routable : Type 0 where
    pub unbarred : r.barrier ≡ none
    pub found : find_node node_id r.nodes ≡ some row
    pub has_result : row.result ≡ some result
    pub unresolved : row.route_resolved ≡ false
    pub selected : select_edge graph.edges r.edges node_id result row.attempt_count ≡ some e
    pub known : graph_node graph node_id ≡ ok node

  dispatched :
      Routable
      → route_result graph node_id now r ≡ dispatch_edge graph node_id result (some e) now r
  unfolding route_result route_found route_row
  dispatched h =
      rw (h.unbarred, h.found) (rw (h.has_result) (rw (h.unresolved) (rw (h.selected) refl)))

  followed :
      (exhausted : Bool)
      → Routable
      → repairs_exhausted (is_repair e result) node.budget node_id r ≡ exhausted
      → follow_edge graph node_id result e r
        ≡ ok (exhausted, (if exhausted then r else take_edge (is_repair e result) node_id e r))
  unfolding follow_edge repairs_exhausted take_edge
  followed true h x = rw (h.unbarred) (rw (h.known) (rw x refl))
  followed false h x = rw (h.unbarred) (rw (h.known) (rw x refl))

  repairs_exhausted-OutOfRepairs :
      Routable
      → repairs_exhausted (is_repair e result) node.budget node_id r ≡ true
      → OutOfRepairs e result node row r
  unfolding repairs_exhausted is_repair
  repairs_exhausted-OutOfRepairs h x =
      let found = h.found in
      let repair : repairs e result ≡ 1 = ground arith in
      elim (Bool-cases (run_repairs_spent r.budget)) [
        | inl t ↦ (repair, inl (spent_run r.budget t))
        | inr t ↦
            let left : node_repairs_spent node.budget (find_node node_id r.nodes) ≡ true =
              ground arith in
            (repair, inr (spent_node node.budget row (rw⁻¹ found left)))
      ]

  OutOfRepairs-repairs_exhausted :
      Routable
      → OutOfRepairs e result node row r
      → repairs_exhausted (is_repair e result) node.budget node_id r ≡ true
  unfolding repairs_exhausted is_repair run_repairs_spent node_repairs_spent
  OutOfRepairs-repairs_exhausted h (repair, inl (b, has, spent)) =
      let found = h.found in ground arith
  OutOfRepairs-repairs_exhausted h (repair, inr (own, has, spent)) =
      let found = h.found in ground arith

  not_exhausted :
      Routable
      → ¬ (OutOfRepairs e result node row r)
      → repairs_exhausted (is_repair e result) node.budget node_id r ≡ false
  not_exhausted h k =
      elim (Bool-cases (repairs_exhausted (is_repair e result) node.budget node_id r)) [
        | inl t ↦ absurd (k (repairs_exhausted-OutOfRepairs h t))
        | inr t ↦ t
      ]

  -- Where a run has no barrier, a node has a result that is not routed yet, an edge to another node is
  -- selected for it, and neither the run nor the node is out of repairs for it, _route_result returns: the
  -- run stands at the end of the edge, whose row is ready, without a result and not routed; the row of
  -- the node that is left is routed; both that row and the budget count one repair more exactly for a
  -- bounded edge that is taken because the node has failed; the rows of all other nodes stay; the edge
  -- counts one traversal more; and the status, the attempts and the report are as before.
  pub route_result_follows :
      (b : BudgetRow) (target : NodeRow) (other : String)
      → Routable
      → ¬ (OutOfRepairs e result node row r)
      → r.budget ≡ some b
      → find_node e.to_node r.nodes ≡ some target
      → e.to_node ≢ node_id
      → other ≢ node_id
      → other ≢ e.to_node
      → let (outcome, s) = route_result graph node_id now r in
        (outcome ≡ ok tt)
        × (s.current_node_id ≡ some e.to_node)
        × (find_node e.to_node s.nodes
            ≡ some (record target {
              status = NodeStatus.ready;
              result = none;
              route_resolved = false;
            }))
        × (find_node node_id s.nodes
            ≡ some (record row {
              route_resolved = true;
              repair_iterations = row.repair_iterations + repairs e result;
            }))
        × (find_node other s.nodes ≡ find_node other r.nodes)
        × (s.budget
            ≡ some (record b { repair_iterations = b.repair_iterations + repairs e result }))
        × (traversals e.from_node e.to_node s.edges ≡ traversals e.from_node e.to_node r.edges + 1)
        × (s.status ≡ r.status)
        × (s.attempts ≡ r.attempts)
        × (s.report ≡ r.report)
  unfolding dispatch_edge transaction finish_if_exhausted take_edge is_repair
  route_result_follows b target other h x has there apart not_left not_reached =
      let repair = is_repair e result in
      rw (dispatched h) (
        rw (followed false h (not_exhausted h x)) (
          refl,
          refl,
          reached_row repair node_id e r.nodes apart there,
          left_row repair node_id e r.nodes (λ same. apart (sym same)) h.found,
          other_row repair node_id other e r.nodes not_left not_reached,
          ap (charge_repair repair) has ∙ charged_run repair b,
          traversals-add_traversal e.from_node e.to_node r.edges,
          refl,
          refl,
          refl,
        ))

  -- Where a run that has not ended has no barrier, a node has a result that is not routed yet, the edge
  -- that is selected for it is bounded and taken because the node has failed, and the repairs of the
  -- run or those of the node are used up, _route_result ends the run as failed for its budget.
  pub route_result_exhausted :
      Routable
      → OutOfRepairs e result node row r
      → is_terminal r.status ≡ false
      → let s = (route_result graph node_id now r).1 in
        (s.status ≡ RunStatus.failed)
        × (s.terminal_reason ≡ some budget_exhausted)
        × (s.barrier ≡ none)
  unfolding dispatch_edge transaction finish_if_exhausted
  route_result_exhausted h x open' =
      let (a, b, c, d) = finish_open TerminalStatus.failed budget_exhausted none now r open' in
      rw (dispatched h) (rw (followed true h (OutOfRepairs-repairs_exhausted h x)) (a, c, b))
