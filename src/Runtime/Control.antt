-- ===== src/Runtime/Control.antt =====
-- control, cancel, _record_control and _cancel_external_handles of engine.py. A verifier is not part
-- of this repository's runtime: what its cancellation answers is an argument.
use graph_engineering.Prelude.{
  ℕ, String, Bool, true, false, not, ◌&&◌, Option, none, some, List, [], ◌∷◌, ◌++◌, Except, ok,
  require, required, runtime_invariant, integrity_error, ◌>>=◌, ◌>>◌, ◌==◌, is_some, if◌then◌else◌,
  any, select,
}
use graph_engineering.Models.Control.{
  StateChangeAction, QueryControlIntent, StateChangeControlIntent, ControlIntent, ControlOutcome,
  pause, resume, interrupt, query, state_change,
}
use graph_engineering.Models.Results.{VerifierStatus}
use graph_engineering.Models.Reports.{RunStatus, TerminalStatus, human_cancelled, is_terminal}
use graph_engineering.Runtime.Rows.{Barrier, BudgetRow, HandleRow, TriggerState, CancelState}
use graph_engineering.Runtime.State.{
  Run, Exec, Body, transaction, enqueue_event, seal, ◌>>>=◌, reads,
}
use graph_engineering.Runtime.Queries.{update_handle}
use graph_engineering.Runtime.Finish.{finish}
use graph_engineering.Runtime.Branches.{cancel_pending, cancel_incomplete}

-- The status and the barrier that an accepted action leaves, if the status allows the action.
unfoldable pub transition : StateChangeAction → RunStatus → Option (RunStatus × Option Barrier)
transition pause RunStatus.running = some (RunStatus.pause_requested, some Barrier.pause)
transition resume RunStatus.paused = some (RunStatus.running, none)
transition interrupt RunStatus.running = some (RunStatus.quiescing, some Barrier.interrupt)
transition interrupt RunStatus.pause_requested = some (RunStatus.quiescing, some Barrier.interrupt)
transition interrupt RunStatus.paused = some (RunStatus.quiescing, some Barrier.interrupt)
transition _ _ = none

event_of : StateChangeAction → String
event_of pause = "run.pause_requested"
event_of resume = "run.resumed"
event_of interrupt = "run.interrupt_requested"
event_of _ = "control.action.rejected"

-- INSERT INTO control_intents, whose key is the intent id over all runs.
unfoldable pub record_intent : String → String → ControlIntent → ControlOutcome → Run → Except Run
record_intent run_id intent_id intent outcome r = do
  require (not (any (λ i. i.intent_id == intent_id) r.intents))
      (integrity_error "UNIQUE constraint failed: control_intents.intent_id")
  ok (record r {
    intents =
        r.intents
        ++ record { run_id = run_id; intent_id = intent_id; intent = intent; outcome = outcome }
          ∷ [];
  })

unfoldable pub apply_transition : Option (RunStatus × Option Barrier) → Run → Run
apply_transition none r = r
apply_transition (some (status, barrier)) r = record r { status = status; barrier = barrier }

unfoldable pub outcome_of : Bool → ControlOutcome
outcome_of true = ControlOutcome.applied
outcome_of false = ControlOutcome.rejected

-- The transaction of `control` for a state change; it returns `changed`.
unfoldable pub change_state : StateChangeControlIntent → Body Bool
unfolding record_intent apply_transition outcome_of event_of
change_state i r =
    let next = transition i.action r.status in
    let changed = is_some next in
    do
      r' ←
          record_intent i.run_id i.intent_id (state_change i) (outcome_of changed)
            (apply_transition next r)
      ok (
        changed,
        seal "control" (if changed then event_of i.action else "control.action.rejected") none none
            r',
      )

-- What a call of the verifier's cancel gives: an answer with a status, another value, or an exception.
pub data CancelAnswer : Type 0 where
  answered : VerifierStatus → CancelAnswer
  other_value : CancelAnswer
  raised : CancelAnswer

-- The methods that getattr finds on the verifier.
pub record VerifierControl : Type 0 where
  pub cancel_for : Option (String → ℕ → String → CancelAnswer)
  pub cancel : Option (String → CancelAnswer)

classify : CancelAnswer → CancelState × Option String
classify (answered VerifierStatus.cancelled) = (CancelState.cancelled, none)
classify (answered _) = (
  CancelState.unknown,
  some "external handle cancellation result is unknown; effect may continue",
)
classify other_value = (
  CancelState.unknown,
  some "external handle cancellation result is unknown; effect may continue",
)
classify raised =
    (CancelState.unknown, some "external handle cancellation raised an error; effect may continue")

cancel_plain : Option (String → CancelAnswer) → String → CancelState × Option String
unfolding classify
cancel_plain none handle = (
  CancelState.unsupported,
  some "external handle cancellation is unsupported; effect may continue",
)
cancel_plain (some cancel) handle = classify (cancel handle)

cancel_one :
    Option (String → ℕ → String → CancelAnswer)
    → Option String
    → Option ℕ
    → Option (String → CancelAnswer)
    → String
    → CancelState × Option String
unfolding cancel_plain
cancel_one (some cancel_for) (some id) (some revision) plain handle =
    classify (cancel_for id revision handle)
cancel_one (some cancel_for) (some id) none plain handle = classify raised
cancel_one _ _ _ plain handle = cancel_plain plain handle

-- handle IS NOT NULL AND trigger_state = 'checkpointed'
abbrev is_checkpointed : TriggerState → Bool
is_checkpointed TriggerState.checkpointed = true
is_checkpointed TriggerState.triggering = false

cancel_event : CancelState → String
cancel_event CancelState.cancelled = "verifier.cancelled"
cancel_event _ = "verifier.cancel_unknown"

unfoldable pub cancel_handle : VerifierControl → HandleRow → Option String → Run → Run
unfolding cancel_one cancel_event
cancel_handle v row none r = r
cancel_handle v row (some handle) r =
    let (state, residual) =
      cancel_one v.cancel_for row.verifier_id row.verifier_revision v.cancel handle in
    seal "external_handle_cancelled" (cancel_event state) (some row.node_id) none (record r {
      handles =
          update_handle row.node_id
            (λ h. record h { cancel_state = some state; residual_effect = residual }) r.handles;
    })

unfoldable pub cancel_rows : VerifierControl → List HandleRow → Run → Run
unfolding cancel_handle
cancel_rows v [] r = r
cancel_rows v (row ∷ rows) r = cancel_rows v rows (cancel_handle v row row.handle r)

abbrev pub checkpointed_handles : Run → List HandleRow
checkpointed_handles r = select (λ h. is_checkpointed h.trigger_state && is_some h.handle) r.handles

unfoldable pub cancel_external_handles : VerifierControl → Run → Run
unfolding cancel_rows
cancel_external_handles v r = cancel_rows v (checkpointed_handles r) r

abbrev is_interrupt : StateChangeAction → Bool
is_interrupt interrupt = true
is_interrupt _ = false

unfoldable pub after_change : VerifierControl → StateChangeAction → Bool → Exec ControlOutcome
unfolding outcome_of
after_change v action changed r = (
  ok (outcome_of changed),
  (if is_interrupt action && changed
      then cancel_external_handles v (cancel_pending "interrupt" r)
      else r),
)

unfoldable pub query_body : QueryControlIntent → Body ControlOutcome
unfolding record_intent
query_body i r = do
  r' ← record_intent i.run_id i.intent_id (query i) ControlOutcome.applied r
  ok (ControlOutcome.applied, enqueue_event "query.snapshot.generated" none none r')

-- What `snapshot` raises; `control` does not read what it returns.
unfoldable pub check_snapshot : Run → Except BudgetRow
check_snapshot r = required r.budget (runtime_invariant "budget row is missing")

unfoldable pub control : VerifierControl → ControlIntent → Exec ControlOutcome
unfolding transaction query_body after_change check_snapshot
control v (query i) = reads check_snapshot >>>= λ _. transaction (query_body i)
control v (state_change i) = transaction (change_state i) >>>= after_change v i.action

-- The transaction of `cancel` on a run that is not terminal.
unfoldable pub request_cancel : Run → Run
request_cancel r =
    seal "cancel_requested" "run.cancel_requested" none none
      (record r { status = RunStatus.quiescing; barrier = some Barrier.cancel })

unfoldable pub cancel : VerifierControl → ℕ → Exec Unit
unfolding request_cancel
cancel v now r =
    if is_terminal r.status
    then (ok tt, r)
    else finish TerminalStatus.cancelled human_cancelled none now
        (cancel_external_handles v (cancel_incomplete "cancel" (request_cancel r)))
