-- ===== src/Runtime/Invariant/Spending.antt =====
-- The invariant and charge_cost, reserve_cost and _recover of engine.py.
use graph_engineering.Prelude.{
  ℕ, String, Bool, true, false, Option, none, some, List, ◌≡◌, refl, subst, arith, ok, inl, inr,
  ◌⊎◌, All, All-update_where,
}
use graph_engineering.Models.Graph.{ExecutionGraph, Node}
use graph_engineering.Runtime.Rows.{NodeRow, BudgetRow, ReservationRow}
use graph_engineering.Runtime.State.{Run, transaction, ◌>>>=◌}
use graph_engineering.Runtime.Limits.{budget_limit_reached}
use graph_engineering.Runtime.Costs.{
  spend, add_run_cost, add_node_cost, charge, finish_if, check_charge, settle_charge, charge_cost,
  reserve, reserve_new, reserve_found, find_reservation, check_reservation, reserve_body,
  reserve_cost,
}
use graph_engineering.Runtime.Recovery.{settle_unconfirmed, unconfirmed, check_hashes, recover}
use graph_engineering.Runtime.Transactions.{transaction_keeps}
use graph_engineering.Runtime.Invariant.{Inv, settled, within}
use graph_engineering.Runtime.Invariant.Steps.{continue-Inv}
use graph_engineering.Runtime.Invariant.Ending.{finish-Inv, finish_uncertain-Inv}

add_node_cost-settled :
    (cost : ℕ) (node_id : Option String) (rows : List NodeRow)
    → All (λ (n : NodeRow). settled n.result ≡ true) rows
    → All (λ (n : NodeRow). settled n.result ≡ true) (add_node_cost cost node_id rows)
unfolding add_node_cost
add_node_cost-settled cost none rows h = h
add_node_cost-settled cost (some node_id) rows h = All-update_where _ _ _ (λ x k. k) h

add_run_cost-within :
    (cost : ℕ) (b : Option BudgetRow) → within b ≡ true → within (add_run_cost cost b) ≡ true
unfolding add_run_cost
add_run_cost-within cost none h = h
add_run_cost-within cost (some b) h = h

spend-Inv :
    (reason event : String) (cost : ℕ) (node_id : Option String) {r : Run}
    → Inv r
    → Inv (spend reason event cost node_id r)
unfolding spend
spend-Inv reason event cost node_id {r = r} h = record {
  in_phase = h.in_phase;
  in_budget = add_run_cost-within cost r.budget h.in_budget;
  results = add_node_cost-settled cost node_id r.nodes h.results;
}

charge-Inv :
    (cost : ℕ) (node_id : Option String) {r : Run}
    → Inv r
    → (a : Unit {0}) (r' : Run) → charge cost node_id r ≡ ok (a, r')
    → Inv r'
unfolding charge
charge-Inv cost node_id {r = r} h a r' e =
    let same : spend "cost_charged" "budget.updated" cost node_id r ≡ r' = ground arith in
    subst Inv same (spend-Inv _ _ cost node_id h)

finish_if-Inv : (reached : Bool) (now : ℕ) {r : Run} → Inv r → Inv (finish_if reached now r).1
unfolding finish_if
finish_if-Inv true now h = finish-Inv _ _ _ now h refl
finish_if-Inv false now h = h

settle_charge-Inv :
    (node : Option Node) (now : ℕ) {r : Run} → Inv r → Inv (settle_charge node now r).1
unfolding settle_charge
settle_charge-Inv node now {r = r} h =
    continue-Inv (budget_limit_reached node true false now r) (λ reached. finish_if reached now) h
      (λ reached. finish_if-Inv reached now h)

pub charge_cost-Inv :
    (graph : ExecutionGraph) (cost : ℕ) (node_id : Option String) (now : ℕ) {r : Run}
    → Inv r
    → Inv (charge_cost graph cost node_id now r).1
unfolding charge_cost
charge_cost-Inv graph cost node_id now {r = r} h =
    let after : Inv (transaction (charge cost node_id) r).1 =
      transaction_keeps (charge cost node_id) r Inv h (charge-Inv cost node_id h) in
    continue-Inv (check_charge graph cost node_id r)
      (λ node. transaction (charge cost node_id) >>>= λ _. settle_charge node now) h
      (λ node.
        continue-Inv (transaction (charge cost node_id) r).0 (λ _. settle_charge node now) after
          (λ _. settle_charge-Inv node now after))

pub reserve_cases :
    (graph : ExecutionGraph) (id : String) (cost : ℕ) (node_id : Option String)
    (found : Option ReservationRow) (r : Run) (x : Bool) (r' : Run)
    → reserve_found graph id cost node_id found r ≡ ok (x, r')
    → (r' ≡ r) ⊎ (r' ≡ reserve id cost node_id r)
unfolding reserve_found reserve_new
reserve_cases graph id cost node_id none r x r' e = ground arith
reserve_cases graph id cost node_id (some row) r x r' e = ground arith

reserve-Inv :
    (id : String) (cost : ℕ) (node_id : Option String) {r : Run}
    → Inv r
    → Inv (reserve id cost node_id r)
unfolding reserve
reserve-Inv id cost node_id h =
    spend-Inv _ _ cost node_id
      (record { in_phase = h.in_phase; in_budget = h.in_budget; results = h.results })

reserve_body-Inv :
    (graph : ExecutionGraph) (id : String) (cost : ℕ) (node_id : Option String) {r : Run}
    → Inv r
    → (x : Bool) (r' : Run) → reserve_body graph id cost node_id r ≡ ok (x, r')
    → Inv r'
unfolding reserve_body
reserve_body-Inv graph id cost node_id {r = r} h x r' e =
    elim (reserve_cases graph id cost node_id (find_reservation id r) r x r' e) [
      | inl same ↦ rw same h
      | inr new ↦ rw new (reserve-Inv id cost node_id h)
    ]

pub reserve_cost-Inv :
    (graph : ExecutionGraph) (id : String) (cost : ℕ) (node_id : Option String) {r : Run}
    → Inv r
    → Inv (reserve_cost graph id cost node_id r).1
unfolding reserve_cost
reserve_cost-Inv graph id cost node_id {r = r} h =
    continue-Inv (check_reservation id cost r)
      (λ _. transaction (reserve_body graph id cost node_id)) h
      (λ _.
        transaction_keeps (reserve_body graph id cost node_id) r Inv h
          (reserve_body-Inv graph id cost node_id h))

settle_unconfirmed-Inv :
    (node_id : Option String) (now : ℕ) {r : Run} → Inv r → Inv (settle_unconfirmed node_id now r).1
unfolding settle_unconfirmed
settle_unconfirmed-Inv none now h = h
settle_unconfirmed-Inv (some node_id) now h = finish_uncertain-Inv node_id now h

pub recover-Inv :
    (graph_hash contract_hash : String) (now : ℕ) {r : Run}
    → Inv r
    → Inv (recover graph_hash contract_hash now r).1
unfolding recover
recover-Inv graph_hash contract_hash now {r = r} h =
    continue-Inv (check_hashes graph_hash contract_hash r)
      (λ _ s. settle_unconfirmed (unconfirmed s) now s) h
      (λ _. settle_unconfirmed-Inv (unconfirmed r) now h)
