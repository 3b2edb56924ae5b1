-- ===== src/Models/Reports.antt =====
-- models/reports.py: run statuses, terminal reasons and the frozen final report.
use graph_engineering.Prelude.{
  ℕ, String, Bool, true, false, not, ◌&&◌, Option, none, some, List, Checked, require, value_error,
  ◌>>◌, is_some, is_none,
}
use graph_engineering.Models.Common.{Artifact, Error}

pub data RunStatus : Type 0 where
  draft awaiting_confirmation running pause_requested quiescing paused delivery_ready : RunStatus
  succeeded failed error interrupted cancelled rejected : RunStatus

pub data TerminalStatus : Type 0 where
  succeeded failed error interrupted cancelled rejected : TerminalStatus

pub data TerminalReason : Type 0 where
  completed acceptance_failed execution_error human_interrupted human_cancelled : TerminalReason
  human_rejected budget_exhausted authorization_blocked contract_conflict : TerminalReason

-- RunStatus(status.value)
abbrev pub to_run_status : TerminalStatus → RunStatus
to_run_status TerminalStatus.succeeded = RunStatus.succeeded
to_run_status TerminalStatus.failed = RunStatus.failed
to_run_status TerminalStatus.error = RunStatus.error
to_run_status TerminalStatus.interrupted = RunStatus.interrupted
to_run_status TerminalStatus.cancelled = RunStatus.cancelled
to_run_status TerminalStatus.rejected = RunStatus.rejected

-- TerminalStatus(status.value), where the value is one of _TERMINAL_VALUES.
abbrev pub to_terminal : RunStatus → Option TerminalStatus
to_terminal RunStatus.succeeded = some TerminalStatus.succeeded
to_terminal RunStatus.failed = some TerminalStatus.failed
to_terminal RunStatus.error = some TerminalStatus.error
to_terminal RunStatus.interrupted = some TerminalStatus.interrupted
to_terminal RunStatus.cancelled = some TerminalStatus.cancelled
to_terminal RunStatus.rejected = some TerminalStatus.rejected
to_terminal _ = none

abbrev pub is_terminal : RunStatus → Bool
is_terminal s = is_some (to_terminal s)

pub record BudgetUsage : Type 0 where
  pub duration_seconds : ℕ
  pub executor_calls : ℕ
  pub repair_iterations : ℕ
  pub cost_units : Option ℕ

pub record UnverifiedItem : Type 0 where
  pub item_id : String
  pub description : String
  pub reason : String
  pub impact : String

pub record ExternalEffect : Type 0 where
  pub effect_id : String
  pub description : String
  pub reversible : Bool
  pub compensation_status : Option String

pub record FinalReport : Type 0 where
  pub report_revision : ℕ
  pub frozen_at : ℕ
  pub terminal_status : TerminalStatus
  pub terminal_reason : TerminalReason
  pub changed_files : List String
  pub completed_node_ids : List String
  pub verification_artifacts : List Artifact
  pub control_intent_ids : List String
  pub unverified_items : List UnverifiedItem
  pub external_effects : List ExternalEffect
  pub budget_usage : BudgetUsage
  pub error : Option Error

-- terminal_reason in allowed_reasons[terminal_status]
abbrev pub allowed_reason : TerminalStatus → TerminalReason → Bool
allowed_reason TerminalStatus.succeeded completed = true
allowed_reason TerminalStatus.failed acceptance_failed = true
allowed_reason TerminalStatus.failed budget_exhausted = true
allowed_reason TerminalStatus.failed authorization_blocked = true
allowed_reason TerminalStatus.failed contract_conflict = true
allowed_reason TerminalStatus.error execution_error = true
allowed_reason TerminalStatus.interrupted human_interrupted = true
allowed_reason TerminalStatus.cancelled human_cancelled = true
allowed_reason TerminalStatus.rejected human_rejected = true
allowed_reason _ _ = false

abbrev pub is_error_terminal : TerminalStatus → Bool
is_error_terminal TerminalStatus.error = true
is_error_terminal _ = false

unfoldable pub status_reason_and_error_are_consistent : FinalReport → Checked
status_reason_and_error_are_consistent r = do
  require (allowed_reason r.terminal_status r.terminal_reason)
      (value_error "terminal_reason is incompatible with terminal_status")
  require (not (is_error_terminal r.terminal_status && is_none r.error))
      (value_error "error is required when terminal_status is error")
  require (not (not (is_error_terminal r.terminal_status) && is_some r.error))
      (value_error "error is only allowed when terminal_status is error")
