-- ===== src/Runtime/Conditions.antt =====
-- _condition_matches of engine.py, and the choice of an edge in _route_result.
use graph_engineering.Prelude.{
  ℕ, String, Bool, true, false, not, ◌&&◌, ◌||◌, Option, none, some, List, [], ◌∷◌, ◌==◌, eqb, leb,
  find_first,
}
use graph_engineering.Models.Common.{Error}
use graph_engineering.Models.Graph.{
  Edge, RouteField, RouteOperator, RouteScalar, RouteValue, RouteCondition, ℤ, pos, negsuc, text,
  int, bool, scalar, list, result_status, result_retryable, attempt_number, equals, not_equals, in_,
  not_in,
}
use graph_engineering.Models.Results.{
  Result, ExecutorStatus, VerifierStatus, BranchStatus, executor, verifier, parallel,
}
use graph_engineering.Runtime.Rows.{EdgeRow}
use graph_engineering.Runtime.Queries.{traversals}

unfoldable pub executor_text : ExecutorStatus → String
executor_text ExecutorStatus.succeeded = "succeeded"
executor_text ExecutorStatus.failed = "failed"
executor_text ExecutorStatus.error = "error"
executor_text ExecutorStatus.cancelled = "cancelled"

unfoldable pub verifier_text : VerifierStatus → String
verifier_text VerifierStatus.pending = "pending"
verifier_text VerifierStatus.passed = "passed"
verifier_text VerifierStatus.failed = "failed"
verifier_text VerifierStatus.error = "error"
verifier_text VerifierStatus.cancelled = "cancelled"

unfoldable pub branch_text : BranchStatus → String
branch_text BranchStatus.succeeded = "succeeded"
branch_text BranchStatus.failed = "failed"
branch_text BranchStatus.blocked = "blocked"
branch_text BranchStatus.error = "error"
branch_text BranchStatus.cancelled = "cancelled"

-- result_data["status"]
unfoldable pub status_text : Result → String
unfolding executor_text verifier_text branch_text
status_text (executor e) = executor_text e.status
status_text (verifier v) = verifier_text v.status
status_text (parallel p) = branch_text p.status

-- result.get("retryable", False): only a verifier's result has the key.
unfoldable pub retryable_of : Result → Bool
retryable_of (verifier v) = v.retryable
retryable_of _ = false

-- result_data.get("error")
unfoldable pub error_of : Result → Option Error
error_of (executor e) = e.error
error_of (verifier v) = v.error
error_of (parallel p) = p.error

-- The value that a field has for a result, at the number of its attempt.
unfoldable pub actual_value : RouteField → Result → ℕ → RouteScalar
unfolding status_text retryable_of
actual_value result_status result n = text (status_text result)
actual_value result_retryable result n = bool (retryable_of result)
actual_value attempt_number result n = int (pos n)

-- Python's `==` counts True as 1 and False as 0.
abbrev pub bool_int : Bool → ℤ
bool_int true = pos 1
bool_int false = pos 0

int_eq : ℤ → ℤ → Bool
int_eq (pos a) (pos b) = eqb a b
int_eq (negsuc a) (negsuc b) = eqb a b
int_eq _ _ = false

unfoldable pub scalar_eq : RouteScalar → RouteScalar → Bool
unfolding int_eq
scalar_eq (text a) (text b) = a == b
scalar_eq (text a) _ = false
scalar_eq (int a) (int b) = int_eq a b
scalar_eq (int a) (bool b) = int_eq a (bool_int b)
scalar_eq (int a) (text b) = false
scalar_eq (bool a) (int b) = int_eq (bool_int a) b
scalar_eq (bool a) (bool b) = int_eq (bool_int a) (bool_int b)
scalar_eq (bool a) (text b) = false

-- actual in expected
unfoldable pub scalar_in : RouteScalar → List RouteScalar → Bool
unfolding scalar_eq
scalar_in a [] = false
scalar_in a (b ∷ bs) = scalar_eq a b || scalar_in a bs

-- A scalar never equals a list, and RouteCondition's validator refuses `in` on a scalar.
compare_values : RouteOperator → RouteScalar → RouteValue → Bool
unfolding scalar_eq scalar_in
compare_values equals a (scalar b) = scalar_eq a b
compare_values equals a (list bs) = false
compare_values not_equals a (scalar b) = not (scalar_eq a b)
compare_values not_equals a (list bs) = true
compare_values in_ a (list bs) = scalar_in a bs
compare_values in_ a (scalar b) = false
compare_values not_in a (list bs) = not (scalar_in a bs)
compare_values not_in a (scalar b) = true

unfoldable pub condition_matches : Option RouteCondition → Result → ℕ → Bool
unfolding actual_value compare_values
condition_matches none result n = true
condition_matches (some c) result n =
    compare_values c.operator (actual_value c.field result n) c.value

-- edge.max_iterations is None or count < edge.max_iterations
abbrev pub under_limit : Option ℕ → ℕ → Bool
under_limit none count = true
under_limit (some m) count = not (leb m count)

unfoldable pub eligible : List EdgeRow → String → Result → ℕ → Edge → Bool
eligible counts node_id result n e =
    e.from_node == node_id
    && under_limit e.max_iterations (traversals e.from_node e.to_node counts)
    && condition_matches e.condition result n

-- The loop over graph.edges, up to its break.
unfoldable pub select_edge : List Edge → List EdgeRow → String → Result → ℕ → Option Edge
unfolding eligible
select_edge edges counts node_id result n = find_first (eligible counts node_id result n) edges
