-- ===== src/Runtime/Joins.antt =====
-- runtime/parallel.py: the aggregate of the branches of a container, and the join of it.
use Prim.Native.String.{◌++◌ as text_append}
use graph_engineering.Prelude.{
  String, Bool, true, false, not, ◌||◌, Option, none, some, List, [], ◌∷◌, ◌++◌, map, Except, ok,
  raise, required, runtime_invariant, assertion_error, value_error, ◌>>=◌, ◌>>◌, ◌==◌,
  if◌then◌else◌, all, select, sorted_set, text_lt,
}
use graph_engineering.Models.Common.{Artifact, Error, ErrorKind}
use graph_engineering.Models.Graph.{Node}
use graph_engineering.Models.Results.{
  BranchStatus, BranchResult, ParallelResult, Result, expected_status,
  canonical_aggregate_is_consistent,
}
use graph_engineering.Runtime.Rows.{BranchState, BranchRow}
use graph_engineering.Runtime.State.{Run}
use graph_engineering.Runtime.Queries.{find_node}

-- ParallelCoordinator.aggregate

-- ORDER BY branch_id
insert_row : BranchRow → List BranchRow → List BranchRow
insert_row row [] = row ∷ []
insert_row row (b ∷ bs) =
    if text_lt b.branch_id row.branch_id then b ∷ insert_row row bs else row ∷ b ∷ bs

unfoldable pub sort_rows : List BranchRow → List BranchRow
unfolding insert_row
sort_rows [] = []
sort_rows (b ∷ bs) = insert_row b (sort_rows bs)

abbrev pub is_finished : BranchState → Bool
is_finished (BranchState.finished s) = true
is_finished _ = false

abbrev pub branches_of : String → Run → List BranchRow
branches_of container r = sort_rows (select (λ b. b.container_node_id == container) r.branches)

-- BranchResult.model_validate_json(row["result_json"])
unfoldable pub branch_results : List BranchRow → Except (List BranchResult)
branch_results [] = ok []
branch_results (b ∷ bs) = do
  result ← required b.result (value_error "branch result is not valid JSON")
  rest ← branch_results bs
  ok (result ∷ rest)

branch_files : List BranchResult → List String
branch_files [] = []
branch_files (b ∷ bs) = b.changed_files ++ branch_files bs

-- f"{branch_id}: {detail}"
unfoldable pub branch_failures : List BranchResult → List String
branch_failures [] = []
branch_failures (b ∷ bs) =
    map (λ detail. text_append b.branch_id (text_append ": " detail)) b.failure_details
    ++ branch_failures bs

branch_artifacts : List BranchResult → List Artifact
branch_artifacts [] = []
branch_artifacts (b ∷ bs) = b.artifacts ++ branch_artifacts bs

-- artifacts_by_id in the order of the ids; a later artifact replaces an earlier of the same id.
last_artifact : String → List Artifact → Option Artifact → Option Artifact
last_artifact id [] found = found
last_artifact id (a ∷ rest) found =
    last_artifact id rest (if a.artifact_id == id then some a else found)

prepend : Option Artifact → List Artifact → List Artifact
prepend none rest = rest
prepend (some a) rest = a ∷ rest

unfoldable pub collect_artifacts : List String → List Artifact → List Artifact
unfolding last_artifact prepend
collect_artifacts [] table = []
collect_artifacts (id ∷ ids) table =
    prepend (last_artifact id table none) (collect_artifacts ids table)

unfoldable pub aggregate_error : BranchStatus → Option Error
aggregate_error BranchStatus.error = some (record {
  kind = ErrorKind.infrastructure;
  code = "parallel.branch_error";
  message = "parallel branches did not succeed";
  retryable = false;
})
aggregate_error BranchStatus.blocked = some (record {
  kind = ErrorKind.infrastructure;
  code = "parallel.blocked";
  message = "parallel branches did not succeed";
  retryable = false;
})
aggregate_error _ = none

unfoldable pub joined : String → List BranchResult → BranchStatus → ParallelResult
unfolding branch_files branch_failures branch_artifacts collect_artifacts aggregate_error
joined container branches status = record {
  parallel_node_id = container;
  status = status;
  summary = "branch results joined";
  branches = branches;
  changed_files = sorted_set (branch_files branches);
  artifacts =
      collect_artifacts (sorted_set (map (λ a. a.artifact_id) (branch_artifacts branches)))
        (branch_artifacts branches);
  failure_details = branch_failures branches;
  error = aggregate_error status;
}

-- The result that the branches of finished rows join to, once its validator has passed.
unfoldable pub join_results : String → List BranchResult → Except (Option ParallelResult)
unfolding joined
join_results container branches = do
  status ← required (expected_status branches) (value_error "max() of an empty sequence")
  canonical_aggregate_is_consistent (joined container branches status)
  ok (some (joined container branches status))

unfoldable pub no_rows : List BranchRow → Bool
no_rows [] = true
no_rows (b ∷ bs) = false

unfoldable pub aggregate : String → Run → Except (Option ParallelResult)
unfolding join_results no_rows
aggregate container r =
    let rows = branches_of container r in
    if no_rows rows || not (all (λ b. is_finished b.status) rows)
    then ok none
    else branch_results rows >>= join_results container

-- ParallelCoordinator.join

-- ParallelResult.model_validate_json, whose validator runs again.
unfoldable pub only_parallel : Result → Except ParallelResult
only_parallel (Result.parallel p) = canonical_aggregate_is_consistent p >> ok p
only_parallel _ = raise (value_error "not a ParallelResult")

unfoldable pub join : Node → Run → Except ParallelResult
unfolding only_parallel
join node r = do
  spec ← required node.join assertion_error
  row ←
      required (find_node spec.parallel_node_id r.nodes)
        (runtime_invariant "join source has no persisted parallel result")
  result ← required row.result (runtime_invariant "join source has no persisted parallel result")
  only_parallel result
