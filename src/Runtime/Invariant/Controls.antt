-- ===== src/Runtime/Invariant/Controls.antt =====
-- The invariant and `control`, `cancel` and _cancel_external_handles of engine.py.
use graph_engineering.Prelude.{
  ℕ, String, Bool, true, false, Option, none, some, List, [], ◌∷◌, ◌≡◌, refl, subst, arith, ok,
  Bool-cases, inl, inr, if◌then◌else◌, >>=-eq-ok, any,
}
use graph_engineering.Models.Common.{Error}
use graph_engineering.Models.Control.{
  ControlIntent, StateChangeControlIntent, QueryControlIntent, StateChangeAction, ControlOutcome,
  query, state_change,
}
use graph_engineering.Models.Reports.{RunStatus, TerminalReason, is_terminal}
use graph_engineering.Runtime.Rows.{HandleRow, Barrier}
use graph_engineering.Runtime.State.{Run, enqueue_event, transaction}
use graph_engineering.Runtime.Branches.{cancel_branches, cancellable}
use graph_engineering.Runtime.Control.{
  VerifierControl, transition, apply_transition, record_intent, change_state, cancel_handle,
  cancel_rows, checkpointed_handles, cancel_external_handles, after_change, query_body,
  check_snapshot, control, request_cancel, cancel,
}
use graph_engineering.Runtime.Transactions.{transaction_keeps}
use graph_engineering.Runtime.Invariant.{Inv, phase}
use graph_engineering.Runtime.Invariant.Ending.{finish-Inv}
use graph_engineering.Runtime.Invariant.Steps.{committed-Inv, continue-Inv}

pub cancel_branches-Inv :
    (reason : String) (include_active : Bool) {r : Run}
    → Inv r
    → Inv (cancel_branches reason include_active r)
unfolding cancel_branches
cancel_branches-Inv reason include_active {r = r} h =
    elim (Bool-cases (any (λ b. cancellable include_active b.status) r.branches)) [
      | inl e ↦
          rw e (record { in_phase = h.in_phase; in_budget = h.in_budget; results = h.results })
      | inr e ↦ rw e h
    ]

cancel_handle-Inv :
    (v : VerifierControl) (row : HandleRow) (handle : Option String) {r : Run}
    → Inv r
    → Inv (cancel_handle v row handle r)
unfolding cancel_handle
cancel_handle-Inv v row none h = h
cancel_handle-Inv v row (some handle) h = record {
  in_phase = h.in_phase;
  in_budget = h.in_budget;
  results = h.results;
}

cancel_rows-Inv :
    (v : VerifierControl) (rows : List HandleRow) {r : Run} → Inv r → Inv (cancel_rows v rows r)
unfolding cancel_rows
cancel_rows-Inv v [] h = h
cancel_rows-Inv v (row ∷ rows) h = cancel_rows-Inv v rows (cancel_handle-Inv v row row.handle h)

pub cancel_external_handles-Inv :
    (v : VerifierControl) {r : Run} → Inv r → Inv (cancel_external_handles v r)
unfolding cancel_external_handles
cancel_external_handles-Inv v {r = r} h = cancel_rows-Inv v (checkpointed_handles r) h

if_Inv : (b : Bool) {r s : Run} → Inv r → Inv s → Inv (if b then r else s)
if_Inv true h k = h
if_Inv false h k = k

-- A run that has not ended has neither a reason nor an error.
not_ended :
    (status : RunStatus) (barrier : Option Barrier) (reason : Option TerminalReason)
    (error : Option Error)
    → is_terminal status ≡ false
    → phase status barrier reason error ≡ true
    → phase RunStatus.quiescing (some Barrier.cancel) reason error ≡ true
not_ended status barrier reason error open' h = ground arith

transition-phase :
    (action : StateChangeAction) (status status' : RunStatus) (barrier barrier' : Option Barrier)
    (reason : Option TerminalReason) (error : Option Error)
    → transition action status ≡ some (status', barrier')
    → phase status barrier reason error ≡ true
    → phase status' barrier' reason error ≡ true
unfolding transition
transition-phase action status status' barrier barrier' reason error t h = ground arith

apply_transition-Inv :
    (next : Option (RunStatus × Option Barrier)) (action : StateChangeAction) {r : Run}
    → transition action r.status ≡ next
    → Inv r
    → Inv (apply_transition next r)
unfolding apply_transition
apply_transition-Inv none action e h = h
apply_transition-Inv (some (status, barrier)) action {r = r} e h = record {
  in_phase =
      transition-phase action r.status status r.barrier barrier r.terminal_reason r.error e
        h.in_phase;
  in_budget = h.in_budget;
  results = h.results;
}

record_intent-Inv :
    (run_id intent_id : String) (i : ControlIntent) (o : ControlOutcome) {r r' : Run}
    → record_intent run_id intent_id i o r ≡ ok r'
    → Inv r
    → Inv r'
unfolding record_intent
record_intent-Inv run_id intent_id i o {r = r} {r' = r'} e h =
    let same : r' ≡ record r { intents = r'.intents } = ground arith in
    rw same (record { in_phase = h.in_phase; in_budget = h.in_budget; results = h.results })

change_state-Inv :
    (i : StateChangeControlIntent) {r : Run}
    → Inv r
    → (x : Bool) (r' : Run) → change_state i r ≡ ok (x, r')
    → Inv r'
unfolding change_state
change_state-Inv i {r = r} h x r' e =
    let next = transition i.action r.status in
    let (s, p, q) = >>=-eq-ok (record_intent _ _ _ _ (apply_transition next r)) _ e in
    let kept : Inv s = record_intent-Inv _ _ _ _ p (apply_transition-Inv next i.action refl h) in
    committed-Inv _ _ _ _ x _ q kept

query_body-Inv :
    (i : QueryControlIntent) {r : Run}
    → Inv r
    → (x : ControlOutcome) (r' : Run) → query_body i r ≡ ok (x, r')
    → Inv r'
unfolding query_body
query_body-Inv i {r = r} h x r' e =
    let (s, p, q) = >>=-eq-ok (record_intent _ _ _ _ r) _ e in
    let kept : Inv s = record_intent-Inv _ _ _ _ p h in
    let same : enqueue_event "query.snapshot.generated" none none s ≡ r' = ground arith in
    subst Inv same
      (record { in_phase = kept.in_phase; in_budget = kept.in_budget; results = kept.results })

after_change-Inv :
    (v : VerifierControl) (action : StateChangeAction) (changed : Bool) {r : Run}
    → Inv r
    → Inv (after_change v action changed r).1
unfolding after_change
after_change-Inv v action changed h =
    if_Inv _ (cancel_external_handles-Inv v (cancel_branches-Inv "interrupt" false h)) h

pub control-Inv :
    (v : VerifierControl) (i : ControlIntent) {r : Run} → Inv r → Inv (control v i r).1
unfolding control
control-Inv v (query i) {r = r} h =
    continue-Inv (check_snapshot r) (λ _. transaction (query_body i)) h
      (λ _. transaction_keeps (query_body i) r Inv h (query_body-Inv i h))
control-Inv v (state_change i) {r = r} h =
    let after : Inv (transaction (change_state i) r).1 =
      transaction_keeps (change_state i) r Inv h (change_state-Inv i h) in
    continue-Inv (transaction (change_state i) r).0 (after_change v i.action) after
      (λ changed. after_change-Inv v i.action changed after)

request_cancel-Inv : {r : Run} → Inv r → is_terminal r.status ≡ false → Inv (request_cancel r)
unfolding request_cancel
request_cancel-Inv {r = r} h open' = record {
  in_phase = not_ended r.status r.barrier r.terminal_reason r.error open' h.in_phase;
  in_budget = h.in_budget;
  results = h.results;
}

pub cancel-Inv : (v : VerifierControl) (now : ℕ) {r : Run} → Inv r → Inv (cancel v now r).1
unfolding cancel
cancel-Inv v now {r = r} h = elim (Bool-cases (is_terminal r.status)) [
  | inl e ↦ rw e h
  | inr e ↦ rw e (
      finish-Inv _ _ _ now
        (cancel_external_handles-Inv v (cancel_branches-Inv "cancel" true (request_cancel-Inv h e)))
        refl)
]
