-- ===== src/Runtime/Costs.antt =====
-- charge_cost and reserve_cost of engine.py.
use graph_engineering.Prelude.{
  ℕ, ◌+◌, String, Bool, true, false, not, ◌&&◌, Option, none, some, List, [], ◌∷◌, ◌++◌, Except,
  Checked, ok, require, required, runtime_invariant, value_error, ◌>>=◌, ◌>>◌, ◌==◌, coalesce, eqb,
  ltb, is_none, if◌then◌else◌, find_first,
}
use graph_engineering.Models.Common.{Budget}
use graph_engineering.Models.Graph.{Node, ExecutionGraph}
use graph_engineering.Models.Reports.{TerminalStatus, budget_exhausted, is_terminal}
use graph_engineering.Runtime.Rows.{NodeRow, BudgetRow, ReservationRow}
use graph_engineering.Runtime.State.{Run, Exec, Body, transaction, seal, ◌>>>=◌, reads, done}
use graph_engineering.Runtime.Queries.{graph_node, find_node, update_node, is_running_status}
use graph_engineering.Runtime.Limits.{budget_limit_reached}
use graph_engineering.Runtime.Finish.{finish}

unfoldable pub optional_node : ExecutionGraph → Option String → Except (Option Node)
optional_node graph none = ok none
optional_node graph (some node_id) = graph_node graph node_id >>= λ node. ok (some node)

-- cost_units = COALESCE(cost_units, 0) + ?
unfoldable pub add_cost : ℕ → BudgetRow → BudgetRow
add_cost cost b = record b { cost_units = some (coalesce b.cost_units 0 + cost) }

unfoldable pub add_run_cost : ℕ → Option BudgetRow → Option BudgetRow
unfolding add_cost
add_run_cost cost none = none
add_run_cost cost (some b) = some (add_cost cost b)

unfoldable pub add_node_cost : ℕ → Option String → List NodeRow → List NodeRow
add_node_cost cost none rows = rows
add_node_cost cost (some node_id) rows =
    update_node node_id (λ n. record n { cost_units = n.cost_units + cost }) rows

unfoldable pub spend : String → String → ℕ → Option String → Run → Run
unfolding add_run_cost add_node_cost
spend reason event cost node_id r =
    seal reason event node_id none
      (record r { budget = add_run_cost cost r.budget; nodes = add_node_cost cost node_id r.nodes })

unfoldable pub charge : ℕ → Option String → Body Unit
unfolding spend
charge cost node_id r = do
  require (not (is_terminal r.status)) (runtime_invariant "cannot charge cost to a terminal Run")
  ok (tt, spend "cost_charged" "budget.updated" cost node_id r)

unfoldable pub finish_if : Bool → ℕ → Exec Unit
finish_if reached now =
    if reached then finish TerminalStatus.failed budget_exhausted none now else done

unfoldable pub check_charge : ExecutionGraph → ℕ → Option String → Run → Except (Option Node)
unfolding optional_node
check_charge graph cost node_id r =
    require (ltb 0 cost) (value_error "cost_units must be positive") >> optional_node graph node_id

-- After the charge: the budget is tested with the cost as it stands.
unfoldable pub settle_charge : Option Node → ℕ → Exec Unit
unfolding finish_if
settle_charge node now =
    reads (budget_limit_reached node true false now) >>>= λ reached. finish_if reached now

unfoldable pub charge_cost : ExecutionGraph → ℕ → Option String → ℕ → Exec Unit
unfolding transaction charge check_charge settle_charge
charge_cost graph cost node_id now = reads (check_charge graph cost node_id) >>>= λ node.
    transaction (charge cost node_id) >>>= λ _. settle_charge node now

unfoldable pub same_node : Option String → Option String → Bool
same_node none none = true
same_node (some a) (some b) = a == b
same_node _ _ = false

-- The node's own cost limit: float(node.cost_units) + cost_units > max_cost_units.
over_limit : Option ℕ → ℕ → Bool
over_limit none total = false
over_limit (some limit) total = ltb limit total

over_node_limit : Option Budget → NodeRow → ℕ → Bool
unfolding over_limit
over_node_limit none row cost = false
over_node_limit (some b) row cost = over_limit b.max_cost_units (row.cost_units + cost)

unfoldable pub node_admits : ExecutionGraph → Option String → ℕ → Run → Except Bool
unfolding over_node_limit
node_admits graph none cost r = ok true
node_admits graph (some node_id) cost r = do
  node ← graph_node graph node_id
  row ←
      required (find_node node_id r.nodes) (runtime_invariant "budget reservation node is missing")
  ok (not (over_node_limit node.budget row cost))

unfoldable pub reserve : String → ℕ → Option String → Run → Run
unfolding spend
reserve reservation_id cost node_id r =
    spend "cost_reserved" "budget.reserved" cost node_id (record r {
      reservations =
          r.reservations
          ++ record { reservation_id = reservation_id; node_id = node_id; cost_units = cost } ∷ [];
    })

unfoldable pub reserve_new : ExecutionGraph → String → ℕ → Option String → Body Bool
unfolding node_admits reserve
reserve_new graph reservation_id cost node_id r =
    if not (is_running_status r.status && is_none r.barrier) then ok (false, r) else do
      b ← required r.budget (runtime_invariant "cost reservation requires a configured cost budget")
      limit ←
          required b.max_cost_units
            (runtime_invariant "cost reservation requires a configured cost budget")
      if ltb limit (coalesce b.cost_units 0 + cost) then ok (false, r) else do
        admitted ← node_admits graph node_id cost r
        if admitted then ok (true, reserve reservation_id cost node_id r) else ok (false, r)

unfoldable pub reserve_found :
    ExecutionGraph → String → ℕ → Option String → Option ReservationRow → Body Bool
unfolding reserve_new same_node
reserve_found graph reservation_id cost node_id none r =
    reserve_new graph reservation_id cost node_id r
reserve_found graph reservation_id cost node_id (some existing) r = do
  require (eqb existing.cost_units cost && same_node existing.node_id node_id)
      (runtime_invariant "budget reservation identity collision")
  ok (true, r)

abbrev pub find_reservation : String → Run → Option ReservationRow
find_reservation reservation_id r =
    find_first (λ row. row.reservation_id == reservation_id) r.reservations

unfoldable pub check_reservation : String → ℕ → Run → Except (Unit {0})
check_reservation reservation_id cost r =
    require (not (reservation_id == "") && ltb 0 cost)
      (value_error "reservation_id and positive cost_units are required")

unfoldable pub reserve_body : ExecutionGraph → String → ℕ → Option String → Body Bool
unfolding reserve_found
reserve_body graph reservation_id cost node_id r =
    reserve_found graph reservation_id cost node_id (find_reservation reservation_id r) r

-- The method up to its flush of the events.
unfoldable pub reserve_cost : ExecutionGraph → String → ℕ → Option String → Exec Bool
unfolding transaction check_reservation reserve_body
reserve_cost graph reservation_id cost node_id =
    reads (check_reservation reservation_id cost) >>>= λ _.
    transaction (reserve_body graph reservation_id cost node_id)

-- What the flush of the events that follows the commit of a new reservation makes of the answer; an
-- answer without a new reservation is given before it.
unfoldable pub flush_reserved : Bool → Checked → Except Bool → Except Bool
flush_reserved true flush (ok true) = flush >> ok true
flush_reserved _ flush answer = answer

-- The whole method, with what the flush of the events gives.
unfoldable pub reserve_and_flush : ExecutionGraph → String → ℕ → Option String → Checked → Exec Bool
unfolding reserve_cost flush_reserved
reserve_and_flush graph reservation_id cost node_id flush r =
    let (answer, after) = reserve_cost graph reservation_id cost node_id r in
    (flush_reserved (is_none (find_reservation reservation_id r)) flush answer, after)
