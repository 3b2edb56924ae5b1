-- ===== src/Runtime/Branches/Ends.antt =====
-- ParallelCoordinator._finish_branch, _block_branch, _branch_status and _subgraph_result of
-- runtime/parallel.py.
use Prim.Native.String.{◌++◌ as text_append}
use graph_engineering.Prelude.{
  String, Bool, false, ◌&&◌, Option, none, some, List, [], ◌∷◌, ◌++◌, map, Except, ok, raise,
  required, runtime_invariant, assertion_error, ◌>>=◌, ◌>>◌, ◌==◌, if◌then◌else◌, select,
  sorted_set, text_lt, update_where,
}
use graph_engineering.Models.Common.{Artifact, Error, ErrorKind}
use graph_engineering.Models.Results.{
  Result, executor, verifier, parallel, ExecutorResult, ExecutorStatus, VerifierStatus,
  BranchStatus, BranchResult, failure_semantics_are_explicit,
  distinguish_failed_from_error_executor,
}
use graph_engineering.Runtime.Rows.{BranchState, BranchNodeRow}
use graph_engineering.Runtime.State.{Run, Exec, transaction, seal, checkpoint, ◌>>>=◌, reads}
use graph_engineering.Runtime.Finish.{is_succeeded, option_files}
use graph_engineering.Runtime.Attempts.{result_artifacts}
use graph_engineering.Runtime.Joins.{collect_artifacts}
use graph_engineering.Runtime.Branches.{is_branch}

abbrev pub executor_branch_status : ExecutorStatus → BranchStatus
executor_branch_status ExecutorStatus.succeeded = BranchStatus.succeeded
executor_branch_status ExecutorStatus.failed = BranchStatus.failed
executor_branch_status ExecutorStatus.error = BranchStatus.error
executor_branch_status ExecutorStatus.cancelled = BranchStatus.cancelled

abbrev pub verifier_branch_status : VerifierStatus → Except BranchStatus
verifier_branch_status VerifierStatus.passed = ok BranchStatus.succeeded
verifier_branch_status VerifierStatus.failed = ok BranchStatus.failed
verifier_branch_status VerifierStatus.error = ok BranchStatus.error
verifier_branch_status VerifierStatus.cancelled = ok BranchStatus.cancelled
verifier_branch_status VerifierStatus.pending =
    raise (runtime_invariant "pending result cannot finish a branch")

unfoldable pub branch_status : Result → Except BranchStatus
branch_status (executor e) = ok (executor_branch_status e.status)
branch_status (verifier v) = verifier_branch_status v.status
branch_status (parallel p) = raise (runtime_invariant "parallel aggregate cannot finish a branch")

-- SELECT ... FROM parallel_branch_nodes WHERE ... ORDER BY node_id
insert_node : BranchNodeRow → List BranchNodeRow → List BranchNodeRow
insert_node row [] = row ∷ []
insert_node row (n ∷ ns) =
    if text_lt n.node_id row.node_id then n ∷ insert_node row ns else row ∷ n ∷ ns

sort_nodes : List BranchNodeRow → List BranchNodeRow
unfolding insert_node
sort_nodes [] = []
sort_nodes (n ∷ ns) = insert_node n (sort_nodes ns)

abbrev pub in_branch : String → String → BranchNodeRow → Bool
in_branch container branch row = row.container_node_id == container && row.branch_id == branch

branch_rows : String → String → Run → List BranchNodeRow
unfolding sort_nodes
branch_rows container branch r = sort_nodes (select (in_branch container branch) r.branch_nodes)

rows_files : List BranchNodeRow → List String
unfolding option_files
rows_files [] = []
rows_files (n ∷ ns) = option_files n.result ++ rows_files ns

option_artifacts : Option Result → List Artifact
option_artifacts none = []
option_artifacts (some result) = result_artifacts result

rows_artifacts : List BranchNodeRow → List Artifact
unfolding option_artifacts
rows_artifacts [] = []
rows_artifacts (n ∷ ns) = option_artifacts n.result ++ rows_artifacts ns

-- The failure_reason of an executor, if it is not empty.
reason_details : Option String → List String
reason_details none = []
reason_details (some reason) = if reason == "" then [] else reason ∷ []

unfoldable pub failure_details_of : Result → List String
unfolding reason_details
failure_details_of (executor e) = reason_details e.failure_reason
failure_details_of (verifier v) = v.failure_details
failure_details_of (parallel p) = []

unfoldable pub branch_error_of : Result → Option Error
branch_error_of (executor e) = e.error
branch_error_of (verifier v) = v.error
branch_error_of (parallel p) = none

unfoldable pub summary_of : Result → String
summary_of (executor e) = e.summary
summary_of (verifier v) = v.summary
summary_of (parallel p) = p.summary

unfoldable pub branch_result : String → BranchStatus → Result → List BranchNodeRow → BranchResult
unfolding rows_files rows_artifacts collect_artifacts failure_details_of branch_error_of summary_of
branch_result branch status result rows = record {
  branch_id = branch;
  status = status;
  summary = summary_of result;
  completed_node_ids = sorted_set (map (λ n. n.node_id) (select (λ n. is_succeeded n.status) rows));
  changed_files = sorted_set (rows_files rows);
  artifacts =
      collect_artifacts (sorted_set (map (λ a. a.artifact_id) (rows_artifacts rows)))
        (rows_artifacts rows);
  failure_details = failure_details_of result;
  error = branch_error_of result;
}

-- UPDATE parallel_branches SET status = ?, current_node_id = NULL, result_json = ?
unfoldable pub end_branch : String → String → BranchResult → Run → Run
unfolding is_branch
end_branch container branch result r = record r {
  branches =
      update_where (is_branch container branch)
        (λ b. record b {
          status = BranchState.finished result.status;
          current_node_id = none;
          result = some result;
        })
        r.branches;
}

-- The result of a branch, once its validator has passed.
unfoldable pub branch_outcome : String → String → Result → Run → Except BranchResult
unfolding branch_status branch_result branch_rows
branch_outcome container branch result r = do
  status ← branch_status result
  failure_semantics_are_explicit
      (branch_result branch status result (branch_rows container branch r))
  ok (branch_result branch status result (branch_rows container branch r))

unfoldable pub store_branch : String → String → BranchResult → Run → Except (Unit {0} × Run)
unfolding end_branch
store_branch container branch result r = ok (
  tt,
  seal "parallel_branch_finished" "branch.finished" (some container) none
      (end_branch container branch result r),
)

unfoldable pub finish_branch : String → String → Result → Exec Unit
unfolding transaction branch_outcome store_branch
finish_branch container branch result =
    reads (branch_outcome container branch result) >>>= λ outcome.
    transaction (store_branch container branch outcome)

unfoldable pub blocked_result : String → String → Bool → BranchResult
blocked_result branch reason error_status = record {
  branch_id = branch;
  status = if error_status then BranchStatus.error else BranchStatus.blocked;
  summary = reason;
  completed_node_ids = [];
  changed_files = [];
  artifacts = [];
  failure_details = [];
  error = some (record {
    kind = ErrorKind.infrastructure;
    code = if error_status then "parallel.external_uncertain" else "parallel.budget_exhausted";
    message = reason;
    retryable = false;
  });
}

unfoldable pub block_branch : String → String → String → Bool → Run → Run
unfolding blocked_result end_branch
block_branch container branch reason error_status r =
    checkpoint "parallel_branch_blocked"
      (end_branch container branch (blocked_result branch reason error_status) r)

-- "; ".join(branch.failure_details)
join_details : List String → String
join_details [] = ""
join_details (d ∷ []) = d
join_details (d ∷ e ∷ rest) = text_append d (text_append "; " (join_details (e ∷ rest)))

-- The ExecutorResult of a subgraph node, before its validator.
from_branch : BranchResult → ExecutorStatus → Option String → Option Error → ExecutorResult
from_branch b status reason error = record {
  status = status;
  summary = b.summary;
  changed_files = b.changed_files;
  artifacts = b.artifacts;
  failure_reason = reason;
  error = error;
}

unfoldable pub subgraph_of : BranchStatus → BranchResult → Except ExecutorResult
unfolding from_branch join_details
subgraph_of BranchStatus.succeeded b = ok (from_branch b ExecutorStatus.succeeded none none)
subgraph_of BranchStatus.failed b =
    ok (from_branch b ExecutorStatus.failed (some (join_details b.failure_details)) none)
subgraph_of BranchStatus.cancelled b = ok (from_branch b ExecutorStatus.cancelled none none)
subgraph_of _ b = do
  error ← required b.error assertion_error
  ok (from_branch b ExecutorStatus.error none (some error))

unfoldable pub subgraph_result : BranchResult → Except ExecutorResult
unfolding subgraph_of distinguish_failed_from_error_executor
subgraph_result b = do
  result ← subgraph_of b.status b
  distinguish_failed_from_error_executor result
  ok result
