-- ===== src/Runtime/Reports.antt =====
-- The final report that _finish freezes.
use graph_engineering.Prelude.{
  ℕ, String, true, false, Option, none, some, ◌≡◌, refl, arith, Except, ok, raise, coalesce,
}
use graph_engineering.Models.Common.{Error}
use graph_engineering.Models.Reports.{
  TerminalStatus, TerminalReason, FinalReport, to_run_status, to_terminal, is_terminal,
  status_reason_and_error_are_consistent,
}
use graph_engineering.Runtime.Rows.{BudgetRow}
use graph_engineering.Runtime.State.{Run, continue}
use graph_engineering.Runtime.Finish.{
  report_of, build_report, terminate, finish, finish_uncertain_external_effect,
}
use graph_engineering.Runtime.Recovery.{check_hashes, settle_unconfirmed, unconfirmed, recover}
use graph_engineering.Runtime.Invariant.{fits}
use graph_engineering.Runtime.Invariant.Ending.{freeze_report-eq}

to_terminal-to_run_status : (t : TerminalStatus) → to_terminal (to_run_status t) ≡ some t
to_terminal-to_run_status TerminalStatus.succeeded = refl
to_terminal-to_run_status TerminalStatus.failed = refl
to_terminal-to_run_status _ = refl

consistent :
    (report : FinalReport)
    → fits report.terminal_status report.terminal_reason report.error ≡ true
    → status_reason_and_error_are_consistent report ≡ ok tt
unfolding status_reason_and_error_are_consistent
consistent report h = ground arith

module _ (status : TerminalStatus) (reason : TerminalReason) (error : Option Error) (now : ℕ)
    (r : Run) (b : BudgetRow) where
  abbrev pub final_report : FinalReport
  final_report = report_of b status reason now (terminate status reason error r)

  report_built :
      r.budget ≡ some b
      → fits status reason error ≡ true
      → build_report now (terminate status reason error r) ≡ ok final_report
  unfolding build_report terminate
  report_built has_budget f =
      let accepted = consistent final_report f in
      rw (has_budget, to_terminal-to_run_status status) (rw accepted)

  -- _finish on a run that has not ended, with a budget row and with a status, a reason and an error
  -- that fit, returns: the run has that status, reason and error and no barrier, and its report is
  -- the one that was there or, where none was, one with that status, reason and error, and with the
  -- executor calls, the repairs and the cost of the budget.
  pub finish_reports :
      is_terminal r.status ≡ false
      → r.budget ≡ some b
      → fits status reason error ≡ true
      → let (result, s) = finish status reason error now r in
        (result ≡ ok tt)
        × (s.status ≡ to_run_status status)
        × (s.barrier ≡ none)
        × (s.terminal_reason ≡ some reason)
        × (s.error ≡ error)
        × (s.report ≡ some (coalesce r.report final_report))
        × (final_report.terminal_status ≡ status)
        × (final_report.terminal_reason ≡ reason)
        × (final_report.error ≡ error)
        × (final_report.budget_usage.executor_calls ≡ b.executor_calls)
        × (final_report.budget_usage.repair_iterations ≡ b.repair_iterations)
        × (final_report.budget_usage.cost_units ≡ b.cost_units)
  unfolding finish terminate report_of
  finish_reports open' has_budget f = rw open' (
      rw (freeze_report-eq now (terminate status reason error r)) (
        rw (report_built has_budget f)
          (refl, refl, refl, refl, refl, refl, refl, refl, refl, refl, refl, refl)))

later_finish_keeps :
    (status status' : TerminalStatus) (reason reason' : TerminalReason)
    (error error' : Option Error) (now : ℕ) (r : Run)
    → (finish status' reason' error' now (terminate status reason error r)).1.report ≡ r.report
unfolding finish terminate
later_finish_keeps status status' reason reason' error error' now r =
    rw (to_terminal-to_run_status status)

later_recovery_keeps :
    (status : TerminalStatus) (reason : TerminalReason) (error : Option Error) (now : ℕ) (r : Run)
    (node_id : Option String)
    → (settle_unconfirmed node_id now (terminate status reason error r)).1.report ≡ r.report
unfolding settle_unconfirmed finish_uncertain_external_effect finish terminate
later_recovery_keeps status reason error now r none = refl
later_recovery_keeps status reason error now r (some node_id) =
    rw (to_terminal-to_run_status status)

checked_recovery_keeps :
    (checked : Except (Unit {0})) (now : ℕ) (s : Run)
    → ((node_id : Option String) → (settle_unconfirmed node_id now s).1.report ≡ s.report)
    → (continue checked s (λ _ u. settle_unconfirmed (unconfirmed u) now u)).1.report ≡ s.report
checked_recovery_keeps (ok x) now s h = h (unconfirmed s)
checked_recovery_keeps (raise e) now s h = refl

-- Where the process stops between the two transactions of _finish, the run has ended with the report
-- that it had before, mostly none: no later _finish, and no recovery, gives it another.
pub crash_leaves_no_report :
    (status status' : TerminalStatus) (reason reason' : TerminalReason)
    (error error' : Option Error) (now : ℕ) (graph_hash contract_hash : String) (r : Run)
    → ((finish status' reason' error' now (terminate status reason error r)).1.report ≡ r.report)
      × ((recover graph_hash contract_hash now (terminate status reason error r)).1.report
          ≡ r.report)
      × (is_terminal (terminate status reason error r).status ≡ true)
unfolding recover terminate
crash_leaves_no_report status status' reason reason' error error' now graph_hash contract_hash r = (
  later_finish_keeps status status' reason reason' error error' now r,
  checked_recovery_keeps (check_hashes graph_hash contract_hash (terminate status reason error r))
      now (terminate status reason error r) (later_recovery_keeps status reason error now r),
  rw (to_terminal-to_run_status status),
)
