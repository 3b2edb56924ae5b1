-- ===== src/Runtime/Boundaries.antt =====
-- GraphRuntime._invoke of engine.py: the call of an executor, of a verifier or of the parallel
-- coordinator, and what becomes of an exception that it raises.
use Prim.Native.String.{◌++◌ as text_append}
use graph_engineering.Prelude.{
  String, false, Option, none, some, [], Except, Exception, ok, raise, value_error, key_error,
  assertion_error, integrity_error, runtime_invariant, recovery_error, lifecycle_error,
  budget_exhausted, require, ◌>>=◌, ◌>>◌, ◌==◌, not, ℕ,
}
use graph_engineering.Models.Common.{Error, ErrorKind}
use graph_engineering.Models.Graph.{Node, NodeType}
use graph_engineering.Models.Results.{
  Result, ExecutorStatus, VerifierStatus, VerifierResult, executor, verifier, parallel,
}
use graph_engineering.Runtime.Rows.{AttemptId}
use graph_engineering.Runtime.State.{Exec}
use graph_engineering.Runtime.Joins.{join}
use graph_engineering.Runtime.Branches.Routes.{Query}
use graph_engineering.Runtime.Branches.Pool.{Boundary, step}

-- Executor.execute and Verifier.execute, and Verifier.query_for or Verifier.query, each with the run as
-- other threads have left it when the call returns.
pub record World : Type 0 where
  pub execute : Node → AttemptId → Exec Result
  pub query : Query → Exec VerifierResult

-- str(exc)
unfoldable pub exception_text : Exception → String
exception_text (value_error t) = t
exception_text (key_error t) = text_append "'" (text_append t "'")
exception_text assertion_error = ""
exception_text (integrity_error t) = t
exception_text (runtime_invariant t) = t
exception_text (recovery_error t) = t
exception_text (lifecycle_error t) = t
exception_text budget_exhausted = ""

unfoldable pub boundary_error : ErrorKind → String → Error
boundary_error kind text = record {
  kind = kind;
  code = "runtime.boundary_exception";
  message = text;
  retryable = false;
}

unfoldable pub boundary_answer : NodeType → String → Result
unfolding boundary_error
boundary_answer NodeType.verifier text = verifier (record {
  status = VerifierStatus.error;
  summary = text;
  artifacts = [];
  external_handle = none;
  retryable = false;
  failure_details = [];
  error = some (boundary_error ErrorKind.verifier text);
})
boundary_answer _ text = executor (record {
  status = ExecutorStatus.error;
  summary = text;
  changed_files = [];
  artifacts = [];
  failure_reason = none;
  error = some (boundary_error ErrorKind.executor text);
})

-- The result that stands for an exception. Error's message has at least one character, so that the
-- model of an empty text raises in turn.
unfoldable pub boundary_result : NodeType → String → Except Result
unfolding boundary_answer
boundary_result t text = do
  require (not (text == "")) (value_error "String should have at least 1 character")
  ok (boundary_answer t text)

unfoldable pub stand_for : Except Result → Except (Option Result)
stand_for result = result >>= λ answer. ok (some answer)

-- The except clause.
unfoldable pub caught : NodeType → Except (Option Result) → Except (Option Result)
unfolding stand_for boundary_result exception_text
caught t (ok result) = ok result
caught t (raise e) = stand_for (boundary_result t (exception_text e))

unfoldable pub joined : Node → Exec (Option Result)
joined node r = (join node r >>= λ p. ok (some (parallel p)), r)

unfoldable pub executed : World → Node → AttemptId → Exec (Option Result)
unfolding stand_for
executed w node id r = let (answer, after) = w.execute node id r in (stand_for answer, after)

-- The call that the type of the node asks for.
unfoldable pub called : Boundary → World → NodeType → Node → AttemptId → ℕ → Exec (Option Result)
unfolding step joined executed
called b w NodeType.parallel node id now = step b node now
called b w NodeType.subgraph node id now = step b node now
called b w NodeType.join node id now = joined node
called b w _ node id now = executed w node id

unfoldable pub invoke_with : Boundary → World → ℕ → Node → AttemptId → Exec (Option Result)
unfolding called caught
invoke_with b w now node id r =
    let (result, after) = called b w node.node_type node id now r in
    (caught node.node_type result, after)

-- Nested nodes contain no branches, so that no further node is invoked inside theirs.
unfoldable pub innermost : World → Boundary
innermost w = record { invoke = λ node id r. (ok none, r); ask = w.query }

unfoldable pub boundary : World → ℕ → Boundary
unfolding innermost invoke_with
boundary w now = record { invoke = invoke_with (innermost w) w now; ask = w.query }

unfoldable pub invoke : World → ℕ → Node → AttemptId → Exec (Option Result)
unfolding boundary invoke_with
invoke w now = invoke_with (boundary w now) w now
