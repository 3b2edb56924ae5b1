-- ===== src/Runtime/Finish.antt =====
-- How a run comes to rest: _finish, _freeze_report, _finish_uncertain_external_effect,
-- _pause_at_safe_point and _honor_barrier_after_result of engine.py.
use Prim.Native.String.{◌++◌ as text_append}
use graph_engineering.Prelude.{
  ℕ, ◌-◌, ◌/◌, String, Bool, true, false, Option, none, some, List, [], ◌∷◌, ◌++◌, map, Except, ok,
  required, runtime_invariant, value_error, ◌>>=◌, ◌>>◌, ◌==◌, coalesce, if◌then◌else◌, select,
  find_first, sorted_set,
}
use graph_engineering.Models.Common.{Error, Artifact, ErrorKind}
use graph_engineering.Models.Results.{Result, executor, verifier, parallel}
use graph_engineering.Models.Reports.{
  RunStatus, TerminalStatus, TerminalReason, FinalReport, BudgetUsage, to_run_status, to_terminal,
  is_terminal, status_reason_and_error_are_consistent, execution_error, human_interrupted,
}
use graph_engineering.Runtime.Rows.{NodeStatus, NodeRow, AttemptRow, BudgetRow, Barrier}
use graph_engineering.Runtime.State.{
  Run, Exec, transaction, enqueue_event, seal, ◌>>>=◌, reads, done,
}
use graph_engineering.Runtime.Limits.{microseconds}
use graph_engineering.Runtime.Artifacts.{is_verifier_role}

abbrev pub is_succeeded : NodeStatus → Bool
is_succeeded NodeStatus.succeeded = true
is_succeeded _ = false

-- payload.get("changed_files", [])
unfoldable pub result_files : Result → List String
result_files (executor e) = e.changed_files
result_files (verifier v) = []
result_files (parallel p) = p.changed_files

unfoldable pub option_files : Option Result → List String
unfolding result_files
option_files none = []
option_files (some result) = result_files result

-- The files of the results of all attempts and of all nodes.
attempt_files : List AttemptRow → List String
unfolding option_files
attempt_files [] = []
attempt_files (a ∷ rest) = option_files a.result ++ attempt_files rest

node_files : List NodeRow → List String
unfolding option_files
node_files [] = []
node_files (n ∷ rest) = option_files n.result ++ node_files rest

prepend : Option Artifact → List Artifact → List Artifact
prepend none rest = rest
prepend (some m) rest = m ∷ rest

-- SELECT DISTINCT m.* ... JOIN artifact_metadata ... ORDER BY m.artifact_id
metadata_of : List Artifact → List String → List Artifact
unfolding prepend
metadata_of table [] = []
metadata_of table (id ∷ ids) =
    prepend (find_first (λ m. m.artifact_id == id) table) (metadata_of table ids)

verifier_artifacts : Run → List Artifact
unfolding metadata_of
verifier_artifacts r =
    metadata_of r.metadata
      (sorted_set (map (λ a. a.artifact_id) (select (λ a. is_verifier_role a.role) r.artifacts)))

-- GraphRuntime.snapshot's BudgetUsage: max(0, int(elapsed seconds)).
usage_of : BudgetRow → ℕ → BudgetUsage
usage_of b now = record {
  duration_seconds = (now - b.started_at) / microseconds;
  executor_calls = b.executor_calls;
  repair_iterations = b.repair_iterations;
  cost_units = b.cost_units;
}

unfoldable pub report_of : BudgetRow → TerminalStatus → TerminalReason → ℕ → Run → FinalReport
unfolding attempt_files node_files verifier_artifacts usage_of
report_of b status reason now r = record {
  report_revision = 1;
  frozen_at = now;
  terminal_status = status;
  terminal_reason = reason;
  changed_files = sorted_set (attempt_files r.attempts ++ node_files r.nodes);
  completed_node_ids =
      sorted_set (map (λ n. n.node_id) (select (λ n. is_succeeded n.status) r.nodes));
  verification_artifacts = verifier_artifacts r;
  control_intent_ids = map (λ i. i.intent_id) (select (λ i. i.run_id == r.run_id) r.intents);
  unverified_items = r.unverified;
  external_effects = r.external_effects;
  budget_usage = usage_of b now;
  error = r.error;
}

-- The report that _freeze_report builds, which its validator may refuse.
unfoldable pub build_report : ℕ → Run → Except FinalReport
unfolding report_of
build_report now r = do
  b ← required r.budget (runtime_invariant "budget row is missing")
  status ← required (to_terminal r.status) (value_error "not a valid TerminalStatus")
  reason ← required r.terminal_reason (value_error "not a valid TerminalReason")
  status_reason_and_error_are_consistent (report_of b status reason now r)
  ok (report_of b status reason now r)

-- INSERT OR IGNORE INTO reports: the first report stays.
store_report : FinalReport → Run → Except (Unit {0} × Run)
store_report report r = ok (
  tt,
  enqueue_event "report.final.frozen" none none
      (record r { report = some (coalesce r.report report) }),
)

unfoldable pub freeze_report : ℕ → Exec Unit
unfolding transaction store_report
freeze_report now = reads (build_report now) >>>= λ report. transaction (store_report report)

-- The transaction of _finish on a run that is not yet terminal.
unfoldable pub terminate : TerminalStatus → TerminalReason → Option Error → Run → Run
terminate status reason error r = seal "terminal" "run.finished" none none (record r {
  status = to_run_status status;
  barrier = none;
  terminal_reason = some reason;
  error = error;
})

unfoldable pub finish : TerminalStatus → TerminalReason → Option Error → ℕ → Exec Unit
finish status reason error now r =
    if is_terminal r.status then (ok tt, r) else freeze_report now (terminate status reason error r)

unfoldable pub uncertain_error : Error
uncertain_error = record {
  kind = ErrorKind.infrastructure;
  code = "external_effect.uncertain";
  message = "external side effect cannot be confirmed after recovery";
  retryable = false;
}

-- f"{prefix}:{run_id}:{node_id}"
qualified : String → Run → String → String
qualified prefix r node_id =
    text_append prefix (text_append ":" (text_append r.run_id (text_append ":" node_id)))

unfoldable pub note_uncertain : String → Run → Run
unfolding qualified
note_uncertain node_id r = record r {
  unverified =
      record {
        item_id = qualified "unverified" r node_id;
        description = "External trigger outcome";
        reason = "process stopped before a handle was checkpointed";
        impact = "the Runtime cannot safely retry or classify the external operation";
      }
      ∷ [];
  external_effects =
      record {
        effect_id = qualified "effect" r node_id;
        description = "An external trigger may have occurred";
        reversible = false;
        compensation_status = some "unknown";
      }
      ∷ [];
}

unfoldable pub finish_uncertain_external_effect : String → ℕ → Exec Unit
unfolding note_uncertain uncertain_error
finish_uncertain_external_effect node_id now r =
    finish TerminalStatus.error execution_error (some uncertain_error) now
      (note_uncertain node_id r)

abbrev pub is_paused : RunStatus → Bool
is_paused RunStatus.paused = true
is_paused _ = false

unfoldable pub pause_at_safe_point : Exec Unit
pause_at_safe_point r =
    if is_paused r.status
    then (ok tt, r)
    else (ok tt, seal "paused" "run.paused" none none (record r { status = RunStatus.paused }))

unfoldable pub honor : Option Barrier → ℕ → Exec Unit
honor (some Barrier.pause) now = pause_at_safe_point
honor (some Barrier.interrupt) now = finish TerminalStatus.interrupted human_interrupted none now
honor _ now = done

unfoldable pub honor_barrier_after_result : ℕ → Exec Unit
unfolding honor
honor_barrier_after_result now r = honor r.barrier now r
