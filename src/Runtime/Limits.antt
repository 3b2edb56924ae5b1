-- ===== src/Runtime/Limits.antt =====
-- The budget tests of engine.py, _budget_limit_reached and _node_budget_limit_reached. A caller
-- passes the reading of the clock; the tests of a duration are multiplied out of the subtraction.
use graph_engineering.Prelude.{
  ℕ, ◌+◌, ◌*◌, Bool, true, false, not, ◌&&◌, ◌||◌, Option, none, some, Except, ok, required,
  runtime_invariant, ◌>>=◌, leb, ltb, if◌then◌else◌,
}
use graph_engineering.Models.Common.{Budget}
use graph_engineering.Models.Graph.{Node}
use graph_engineering.Runtime.Rows.{NodeRow, BudgetRow}
use graph_engineering.Runtime.State.{Run}
use graph_engineering.Runtime.Queries.{find_node}

abbrev pub microseconds : ℕ
microseconds = 1000000

-- (now - started_at).total_seconds() >= limit
abbrev pub elapsed : ℕ → ℕ → ℕ → Bool
elapsed now started_at limit = leb (started_at + limit * microseconds) now

-- actual > limit or (not cost_check_after_charge and actual >= limit)
abbrev pub cost_reached : Bool → ℕ → ℕ → Bool
cost_reached after_charge actual limit = ltb limit actual || not after_charge && leb limit actual

cost_limit_reached : Bool → Option ℕ → Option ℕ → Bool
cost_limit_reached after_charge (some actual) (some limit) = cost_reached after_charge actual limit
cost_limit_reached after_charge _ _ = false

started_limit_reached : ℕ → Option ℕ → ℕ → Bool
started_limit_reached now none limit = false
started_limit_reached now (some started_at) limit = elapsed now started_at limit

own_limit_reached : Option Budget → NodeRow → Bool → Bool → ℕ → Bool
unfolding cost_limit_reached started_limit_reached
own_limit_reached none row after_charge check_attempts now = false
own_limit_reached (some b) row after_charge check_attempts now =
    check_attempts && leb b.max_executor_calls row.attempt_count
    || started_limit_reached now row.first_started_at b.max_duration_seconds
    || cost_limit_reached after_charge (some row.cost_units) b.max_cost_units

unfoldable pub node_budget_limit_reached : Node → NodeRow → Bool → Bool → ℕ → Bool
unfolding own_limit_reached
node_budget_limit_reached node row after_charge check_attempts now =
    own_limit_reached node.budget row after_charge check_attempts now

run_limit_reached : BudgetRow → Bool → ℕ → Bool
unfolding cost_limit_reached
run_limit_reached b after_charge now =
    elapsed now b.started_at b.max_duration_seconds
    || cost_limit_reached after_charge b.cost_units b.max_cost_units

node_limit_of : Option Node → Run → Bool → Bool → ℕ → Except Bool
unfolding node_budget_limit_reached
node_limit_of none r after_charge check_attempts now = ok false
node_limit_of (some node) r after_charge check_attempts now = do
  row ← required (find_node node.node_id r.nodes) (runtime_invariant "node budget row is missing")
  ok (node_budget_limit_reached node row after_charge check_attempts now)

unfoldable pub budget_limit_reached : Option Node → Bool → Bool → ℕ → Run → Except Bool
unfolding run_limit_reached node_limit_of
budget_limit_reached node after_charge check_attempts now r = do
  b ← required r.budget (runtime_invariant "budget row is missing")
  if run_limit_reached b after_charge now
      then ok true
      else node_limit_of node r after_charge check_attempts now
