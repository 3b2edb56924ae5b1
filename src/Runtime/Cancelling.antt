-- ===== src/Runtime/Cancelling.antt =====
-- Theorems on `cancel` of engine.py.
use graph_engineering.Prelude.{
  ℕ, true, false, Option, none, some, List, ◌≡◌, refl, Except, ok, raise, All,
}
use graph_engineering.Models.Common.{Error}
use graph_engineering.Models.Reports.{
  TerminalStatus, TerminalReason, FinalReport, is_terminal, to_run_status,
}
use graph_engineering.Runtime.Rows.{BranchRow}
use graph_engineering.Runtime.State.{Run}
use graph_engineering.Runtime.Finish.{finish, terminate, build_report}
use graph_engineering.Runtime.Joins.{is_finished}
use graph_engineering.Runtime.Branches.{cancel_incomplete}
use graph_engineering.Runtime.Invariant.Ending.{frozen, freeze_report-eq}
use graph_engineering.Runtime.Control.{VerifierControl, cancel_external_handles, request_cancel}

abbrev Finished : List BranchRow → Type 0
Finished = All (λ (b : BranchRow). is_finished b.status ≡ true)

ended :
    (status : TerminalStatus) (reason : TerminalReason) (error : Option Error)
    (o : Except FinalReport) (u : Run)
    → let s = (frozen o (terminate status reason error u)).1 in
      (s.status ≡ to_run_status status)
      × (s.barrier ≡ none)
      × (s.terminal_reason ≡ some reason)
      × (s.branches ≡ u.branches)
unfolding terminate
ended status reason error (ok report) u = (refl, refl, refl, refl)
ended status reason error (raise e) u = (refl, refl, refl, refl)

pub finish_open :
    (status : TerminalStatus) (reason : TerminalReason) (error : Option Error) (now : ℕ) (u : Run)
    → is_terminal u.status ≡ false
    → let s = (finish status reason error now u).1 in
      (s.status ≡ to_run_status status)
      × (s.barrier ≡ none)
      × (s.terminal_reason ≡ some reason)
      × (s.branches ≡ u.branches)
unfolding finish
finish_open status reason error now u h = rw h (
    rw (freeze_report-eq now (terminate status reason error u))
      (ended status reason error (build_report now (terminate status reason error u)) u))

module _ (v : VerifierControl) (now : ℕ) (r : Run) where
  abbrev quiet : Run
  quiet = cancel_external_handles v (cancel_incomplete "cancel" (request_cancel r))
