-- ===== src/Runtime/State.antt =====
-- The rows that operations on one run read and write, and what StateStore gives them: transactions,
-- the event outbox and checkpoints.
use graph_engineering.Prelude.{String, Option, List, ◌∷◌, Except, ok, raise}
use graph_engineering.Models.Common.{Error, Artifact}
use graph_engineering.Models.Reports.{
  RunStatus, TerminalReason, UnverifiedItem, ExternalEffect, FinalReport,
}
use graph_engineering.Runtime.Rows.{
  NodeRow, AttemptId, AttemptRow, EdgeRow, BudgetRow, HandleRow, ReservationRow, IntentRow,
  ArtifactRow, BranchRow, BranchNodeRow, BranchAttemptRow, BranchEdgeRow, Barrier, Checkpoint,
  Event,
}

-- One row of `runs` with the rows of the other tables that carry its run id. `intents` and
-- `metadata` are whole tables, which all runs share.
pub record Run : Type 0 where
  pub run_id : String
  pub contract_hash : String
  pub graph_hash : String
  pub status : RunStatus
  pub barrier : Option Barrier
  pub current_node_id : Option String
  pub parent_run_id : Option String
  pub supersedes_run_id : Option String
  pub terminal_reason : Option TerminalReason
  pub error : Option Error
  pub unverified : List UnverifiedItem
  pub external_effects : List ExternalEffect
  pub nodes : List NodeRow
  pub attempts : List AttemptRow
  pub edges : List EdgeRow
  pub budget : Option BudgetRow
  pub handles : List HandleRow
  pub reservations : List ReservationRow
  pub branches : List BranchRow
  pub branch_nodes : List BranchNodeRow
  pub branch_attempts : List BranchAttemptRow
  pub branch_edges : List BranchEdgeRow
  pub artifacts : List ArtifactRow
  pub report : Option FinalReport
  pub intents : List IntentRow
  pub metadata : List Artifact
  pub checkpoints : List Checkpoint
  pub outbox : List Event

-- A method on a run: what it returns or raises, and the state that it leaves.
abbrev pub Exec : Type 0 → Type 0
Exec A = Run → Except A × Run

-- The body of a transaction: the connection's writes, or the exception.
abbrev pub Body : Type 0 → Type 0
Body A = Run → Except (A × Run)

-- `with self.state.transaction()`: commit on a normal exit, roll back on an exception.
abbrev pub settle : {A : Type 0} → Except (A × Run) → Run → Except A × Run
settle (ok (a, after)) before = (ok a, after)
settle (raise e) before = (raise e, before)

unfoldable pub transaction : {A : Type 0} → Body A → Exec A
transaction body r = settle (body r) r

abbrev pub continue : {A B : Type 0} → Except A → Run → (A → Exec B) → Except B × Run
continue (ok a) r f = f a r
continue (raise e) r f = (raise e, r)

-- One method after another; what the first has written stays when the second raises.
infixl 5 ◌>>>=◌
abbrev pub ◌>>>=◌ : {A B : Type 0} → Exec A → (A → Exec B) → Exec B
m >>>= f = λ r. let (result, after) = m r in continue result after f

-- A read, which raises or returns and writes nothing.
abbrev pub reads : {A : Type 0} → (Run → Except A) → Exec A
reads query r = (query r, r)

abbrev pub done : Exec Unit
done r = (ok tt, r)

abbrev pub snapshot_rows : String → Run → Checkpoint
snapshot_rows reason r = record {
  reason = reason;
  graph_hash = r.graph_hash;
  contract_hash = r.contract_hash;
  current_node_id = r.current_node_id;
  nodes = r.nodes;
  edges = r.edges;
  artifacts = r.artifacts;
  branches = r.branches;
  branch_nodes = r.branch_nodes;
  branch_edges = r.branch_edges;
}

-- GraphRuntime._checkpoint; the latest checkpoint stands first.
abbrev pub checkpoint : String → Run → Run
checkpoint reason r = record r { checkpoints = snapshot_rows reason r ∷ r.checkpoints }

-- StateStore.enqueue_event; the latest event stands first.
abbrev pub enqueue_event : String → Option String → Option AttemptId → Run → Run
enqueue_event event_type node_id attempt_id r = record r {
  outbox =
      record { event_type = event_type; node_id = node_id; attempt_id = attempt_id } ∷ r.outbox;
}

-- A checkpoint and the event that goes with it, the end of most transactions.
abbrev pub seal : String → String → Option String → Option AttemptId → Run → Run
seal reason event_type node_id attempt_id r =
    enqueue_event event_type node_id attempt_id (checkpoint reason r)
