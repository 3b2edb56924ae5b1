-- ===== src/Runtime/Starts.antt =====
-- Theorems on _start_attempt of engine.py.
use graph_engineering.Prelude.{
  ℕ, ◌+◌, ◌++◌, ◌∷◌, [], ap, ◌∙◌, ◌==◌, if◌then◌else◌, find_first-update_where, Bool, true, false,
  none, some, ◌≡◌, refl, arith, ok, raise, Exception, Checked, Except-cases, ◌⊎◌, inl, inr, ◌>>◌,
  ◌>>=◌, subst, ◌&&◌, leb,
}
use graph_engineering.Models.Graph.{Node}
use graph_engineering.Models.Reports.{RunStatus}
use graph_engineering.Runtime.Rows.{NodeStatus, NodeRow, AttemptId, BudgetRow, is_ready}
use graph_engineering.Runtime.State.{Run}
use graph_engineering.Runtime.Queries.{find_node}
use graph_engineering.Runtime.Limits.{node_budget_limit_reached}
use graph_engineering.Runtime.Transactions.{transaction_returns, transaction_raises}
use graph_engineering.Runtime.Attempts.{
  counts_call, charge_call, new_attempt, start_row, record_attempt, begin_attempt, start_attempt,
  start_and_flush,
}

-- The guards of the transaction, with the rows that they read, and what it writes.
abbrev pub Begun : Node → ℕ → Run → AttemptId → Run → Type 0
Begun node now r id r' =
    (b : BudgetRow) × (row : NodeRow) × (r.budget ≡ some b)
    × (find_node node.node_id r.nodes ≡ some row)
    × (r.status ≡ RunStatus.running)
    × (r.barrier ≡ none)
    × ((counts_call node.node_type && leb b.max_executor_calls b.executor_calls) ≡ false)
    × (is_ready row.status ≡ true)
    × (node_budget_limit_reached node row false true now ≡ false)
    × (id ≡ record { node_id = node.node_id; number = row.attempt_count + 1 })
    × (r' ≡ record_attempt node (row.attempt_count + 1) now b r)

pub begin_attempt-Begun :
    (node : Node) (now : ℕ) (r : Run) (id : AttemptId) (r' : Run)
    → begin_attempt node now r ≡ ok (id, r')
    → Begun node now r id r'
unfolding begin_attempt
begin_attempt-Begun node now r id r' e = ground arith

charged :
    (counted : Bool) (b : BudgetRow)
    → charge_call counted b
      ≡ record b { executor_calls = if counted then b.executor_calls + 1 else b.executor_calls }
unfolding charge_call
charged true b = refl
charged false b = refl

-- If _start_attempt returns, then: the run was running with no barrier, the node's row was ready, an
-- executor call was left if the node counts as one, and the node's own budget was not reached. It
-- returns the node's next attempt number, the budget counts one executor call more exactly for a
-- node that is no container, the attempt's row is added, and the node's row is running under that
-- number, with no result and not routed.
pub start_attempt_returns :
    (node : Node) (now : ℕ) (r : Run) (id : AttemptId)
    → (start_attempt node now r).0 ≡ ok id
    → let s = (start_attempt node now r).1 in
      (b : BudgetRow) × (row : NodeRow) × (r.status ≡ RunStatus.running)
      × (r.barrier ≡ none)
      × (find_node node.node_id r.nodes ≡ some row)
      × (is_ready row.status ≡ true)
      × (node_budget_limit_reached node row false true now ≡ false)
      × (r.budget ≡ some b)
      × ((counts_call node.node_type && leb b.max_executor_calls b.executor_calls) ≡ false)
      × (id ≡ record { node_id = node.node_id; number = row.attempt_count + 1 })
      × (s.budget
          ≡ some (record b {
            executor_calls =
                if counts_call node.node_type then b.executor_calls + 1 else b.executor_calls;
          }))
      × (s.attempts ≡ r.attempts ++ new_attempt node.node_id (row.attempt_count + 1) ∷ [])
      × (find_node node.node_id s.nodes ≡ some (start_row (row.attempt_count + 1) now row))
unfolding start_attempt record_attempt
start_attempt_returns node now r id e =
    let (b, row, has_budget, found, running, open', free, ready, left, same, written) =
      begin_attempt-Begun node now r id _ (transaction_returns (begin_attempt node now) r e) in
    (
      b,
      row,
      running,
      open',
      found,
      ready,
      left,
      has_budget,
      free,
      same,
      ap (λ s. s.budget) written ∙ ap some (charged (counts_call node.node_type) b),
      ap (λ s. s.attempts) written,
      ap (λ s. find_node node.node_id s.nodes) written
          ∙ find_first-update_where (λ n. n.node_id == node.node_id)
              (start_row (row.attempt_count + 1) now) r.nodes (λ y. refl) found,
    )

flush_raises :
    (flush : Checked) (id : AttemptId) {e : Exception}
    → (flush >> ok id) ≡ raise e
    → flush ≡ raise e
flush_raises (ok tt) id h = cc
flush_raises (raise x) id h = ground arith

-- If _start_attempt raises, with the flush of the events at its end, then it has written nothing, or
-- the flush has raised after the attempt is committed: the node, whose row was ready, is running under
-- its next number, and the attempt is on record.
pub start_attempt_raises :
    (node : Node) (now : ℕ) (flush : Checked) (r : Run) (e : Exception)
    → (start_and_flush node now flush r).0 ≡ raise e
    → let s = (start_and_flush node now flush r).1 in
      (s ≡ r)
      ⊎ ((flush ≡ raise e)
          × ((row : NodeRow) × (after : NodeRow) × (find_node node.node_id r.nodes ≡ some row)
              × (is_ready row.status ≡ true)
              × (find_node node.node_id s.nodes ≡ some after)
              × (after.status ≡ NodeStatus.running)
              × (after.attempt_count ≡ row.attempt_count + 1)
              × (s.attempts ≡ r.attempts ++ new_attempt node.node_id (row.attempt_count + 1) ∷ [])))
unfolding start_and_flush start_attempt
start_attempt_raises node now flush r e h = elim (Except-cases (start_attempt node now r).0) [
  | inl (error, raised) ↦ inl (transaction_raises (begin_attempt node now) r raised)
  | inr (id, started) ↦
      let (b, row, _, _, found, ready, _, _, _, _, _, attempts, after) =
        start_attempt_returns node now r id started in
      let thrown : flush ≡ raise e =
        flush_raises flush id (subst (λ x. (x >>= λ k. flush >> ok k) ≡ raise e) started h) in
      inr (
        thrown,
        (
          row,
          start_row (row.attempt_count + 1) now row,
          found,
          ready,
          after,
          unfold start_row in refl,
          unfold start_row in refl,
          attempts,
        ),
      )
]
