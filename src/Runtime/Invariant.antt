-- ===== src/Runtime/Invariant.antt =====
-- What holds of a run between any two transactions of engine.py.
pub mod Ending
pub mod Steps
pub mod Attempts
pub mod Routing
pub mod Controls
pub mod Spending
pub mod Creating
use graph_engineering.Prelude.{
  ℕ, Bool, true, false, not, ◌&&◌, ◌||◌, Option, none, some, List, ◌≡◌, All, is_some, is_none, leb,
  arith,
}
use graph_engineering.Models.Common.{Error}
use graph_engineering.Models.Results.{Result}
use graph_engineering.Models.Reports.{
  RunStatus, TerminalStatus, TerminalReason, allowed_reason, is_error_terminal,
}
use graph_engineering.Runtime.Rows.{NodeRow, BudgetRow, Barrier}
use graph_engineering.Runtime.State.{Run}
use graph_engineering.Runtime.Routes.{verdict}

abbrev pub same_bool : Bool → Bool → Bool
same_bool true b = b
same_bool false b = not b

-- A terminal status, its reason and its error fit together, as FinalReport's validator asks.
abbrev pub fits : TerminalStatus → TerminalReason → Option Error → Bool
fits status reason error =
    allowed_reason status reason && same_bool (is_error_terminal status) (is_some error)

abbrev ended : TerminalStatus → Option Barrier → Option TerminalReason → Option Error → Bool
ended status none (some reason) error = fits status reason error
ended status _ _ error = false

abbrev waits : Option TerminalReason → Option Error → Bool
waits reason error = is_none reason && is_none error

abbrev is_pause : Option Barrier → Bool
is_pause (some Barrier.pause) = true
is_pause _ = false

abbrev is_stop : Option Barrier → Bool
is_stop (some Barrier.interrupt) = true
is_stop (some Barrier.cancel) = true
is_stop _ = false

-- The barrier, the reason and the error that a run of a status has.
abbrev pub phase : RunStatus → Option Barrier → Option TerminalReason → Option Error → Bool
phase RunStatus.running barrier reason error = is_none barrier && waits reason error
phase RunStatus.pause_requested barrier reason error = is_pause barrier && waits reason error
phase RunStatus.paused barrier reason error = is_pause barrier && waits reason error
phase RunStatus.quiescing barrier reason error = is_stop barrier && waits reason error
phase RunStatus.succeeded barrier reason error = ended TerminalStatus.succeeded barrier reason error
phase RunStatus.failed barrier reason error = ended TerminalStatus.failed barrier reason error
phase RunStatus.error barrier reason error = ended TerminalStatus.error barrier reason error
phase RunStatus.interrupted barrier reason error =
    ended TerminalStatus.interrupted barrier reason error
phase RunStatus.cancelled barrier reason error = ended TerminalStatus.cancelled barrier reason error
phase RunStatus.rejected barrier reason error = ended TerminalStatus.rejected barrier reason error
phase _ barrier reason error = false

-- The budget row is there, and neither counter has passed its limit.
abbrev pub within : Option BudgetRow → Bool
within none = false
within (some b) =
    leb b.executor_calls b.max_executor_calls && leb b.repair_iterations b.max_repair_iterations

-- A kept result can end the run: the verdict on it is one that a report admits.
abbrev pub fits_verdict : TerminalStatus × TerminalReason × Option Error → Bool
fits_verdict (status, reason, error) = fits status reason error

abbrev pub settled : Option Result → Bool
settled none = true
settled (some result) = fits_verdict (verdict result)

pub record Inv (r : Run) : Type 0 where
  pub in_phase : phase r.status r.barrier r.terminal_reason r.error ≡ true
  pub in_budget : within r.budget ≡ true
  pub results : All (λ (n : NodeRow). settled n.result ≡ true) r.nodes
