-- ===== src/Runtime/Controls.antt =====
-- Theorems on `control` of engine.py.
use graph_engineering.Prelude.{
  String, [], ◌∷◌, ◌++◌, Bool, true, false, Option, none, some, ◌≡◌, refl, sym, subst, ap, ◌∙◌,
  arith, Except, Exception, required, ok, raise, ◌⊎◌, inl, inr, any, Bool-cases, Except-cases,
  is_some, ◌==◌,
}
use graph_engineering.Models.Control.{
  StateChangeAction, QueryControlIntent, StateChangeControlIntent, ControlOutcome, pause, resume,
  interrupt, query, state_change,
}
use graph_engineering.Models.Reports.{RunStatus}
use graph_engineering.Runtime.Rows.{Barrier, BudgetRow}
use graph_engineering.Runtime.State.{Run, settle, transaction, continue}
use graph_engineering.Runtime.Branches.{cancel_pending}
use graph_engineering.Runtime.Control.{
  VerifierControl, transition, apply_transition, record_intent, outcome_of, change_state,
  query_body, check_snapshot, after_change, control, cancel_external_handles,
}
use graph_engineering.Runtime.Asides.{Aside, interrupted-Aside}

-- The actions that a status allows, with the status and the barrier that they leave.
abbrev pub Allowed : StateChangeAction → RunStatus → RunStatus → Option Barrier → Type 0
Allowed action before after barrier =
    ((action ≡ pause)
      × (before ≡ RunStatus.running)
      × (after ≡ RunStatus.pause_requested)
      × (barrier ≡ some Barrier.pause))
    ⊎ ((action ≡ resume)
        × (before ≡ RunStatus.paused)
        × (after ≡ RunStatus.running)
        × (barrier ≡ none))
    ⊎ ((action ≡ interrupt)
        × ((before ≡ RunStatus.running)
            ⊎ (before ≡ RunStatus.pause_requested)
            ⊎ (before ≡ RunStatus.paused))
        × (after ≡ RunStatus.quiescing)
        × (barrier ≡ some Barrier.interrupt))

transition-Allowed :
    (action : StateChangeAction) (before after : RunStatus) (barrier : Option Barrier)
    → transition action before ≡ some (after, barrier)
    → Allowed action before after barrier
unfolding transition
transition-Allowed action before after barrier h = ground arith

Allowed-transition :
    (action : StateChangeAction) (before after : RunStatus) (barrier : Option Barrier)
    → Allowed action before after barrier
    → transition action before ≡ some (after, barrier)
unfolding transition
Allowed-transition action before after barrier h = ground arith

abbrev pub HasBudget : Run → Type 0
HasBudget r = (b : BudgetRow) × (r.budget ≡ some b)

-- No intent on record has the identifier, and some intent has.
abbrev pub Unused : Run → String → Type 0
Unused r id = any (λ x. x.intent_id == id) r.intents ≡ false

abbrev pub Used : Run → String → Type 0
Used r id = any (λ x. x.intent_id == id) r.intents ≡ true

-- A run with the intent of a query, applied, and the event of it, and otherwise as it was.
abbrev pub queried : QueryControlIntent → Run → Run
queried i r = record r {
  intents =
      r.intents
      ++ record {
        run_id = i.run_id;
        intent_id = i.intent_id;
        intent = query i;
        outcome = ControlOutcome.applied;
      }
        ∷ [];
  outbox =
      record { event_type = "query.snapshot.generated"; node_id = none; attempt_id = none }
      ∷ r.outbox;
}

query_transaction_writes :
    (i : QueryControlIntent) (r : Run)
    → let s = (transaction (query_body i) r).1 in
      (Unused r i.intent_id × (s ≡ queried i r)) ⊎ (Used r i.intent_id × (s ≡ r))
unfolding transaction query_body record_intent
query_transaction_writes i r = elim (Bool-cases (any (λ x. x.intent_id == i.intent_id) r.intents)) [
  | inl h ↦ inr (h, rw h refl)
  | inr h ↦ inl (h, rw h refl)
]

-- A snapshot is refused for want of a budget only.
no_budget : (r : Run) {e : Exception} → check_snapshot r ≡ raise e → r.budget ≡ none
unfolding check_snapshot
no_budget r h = ground arith

a_budget : (r : Run) {b : BudgetRow} → check_snapshot r ≡ ok b → HasBudget r
unfolding check_snapshot
a_budget r h = (_, required-eq-ok r.budget _ h)
  where
    required-eq-ok :
        (o : Option BudgetRow) (e : Exception) {b : BudgetRow} → required o e ≡ ok b → o ≡ some b
    required-eq-ok none e h = cc
    required-eq-ok (some b) e h = ground arith

-- A query records its intent as applied and enqueues one event, and writes nothing else of the run,
-- exactly if the run has a budget and no intent has its identifier; otherwise it writes nothing.
pub control_query_writes :
    (v : VerifierControl) (i : QueryControlIntent) (r : Run)
    → let s = (control v (query i) r).1 in
      (HasBudget r × Unused r i.intent_id × (s ≡ queried i r))
      ⊎ (((r.budget ≡ none) ⊎ Used r i.intent_id) × (s ≡ r))
unfolding control
control_query_writes v i r = elim (Except-cases (check_snapshot r)) [
  | inl (e, raised) ↦ inr (inl (no_budget r raised), rw raised refl)
  | inr (b, passed) ↦ elim (query_transaction_writes i r) [
    | inl (new, written) ↦ inl (a_budget r passed, new, rw passed written)
    | inr (old, kept) ↦ inr (inr old, rw passed kept)
  ]
]

-- The parts of a run that an action may write.
abbrev pub Controlled : Run → Run → Type 0
Controlled r s = s ≡ record r {
  status = s.status;
  barrier = s.barrier;
  intents = s.intents;
  branches = s.branches;
  handles = s.handles;
  checkpoints = s.checkpoints;
  outbox = s.outbox;
}

-- The transaction of an action: it takes the transition that the status allows, or none.
abbrev Changed : StateChangeAction → Run → Bool → Run → Type 0
Changed action r changed u =
    Controlled r u
    × (((changed ≡ true) × (transition action r.status ≡ some (u.status, u.barrier)))
        ⊎ ((changed ≡ false)
            × (transition action r.status ≡ none)
            × (u.status ≡ r.status)
            × (u.barrier ≡ r.barrier)))

written :
    (i : StateChangeControlIntent) (r : Run) (changed : Bool) (u : Run)
    → change_state i r ≡ ok (changed, u)
    → (changed ≡ is_some (transition i.action r.status))
      × (u ≡ record (apply_transition (transition i.action r.status) r) {
        intents = u.intents;
        checkpoints = u.checkpoints;
        outbox = u.outbox;
      })
unfolding change_state record_intent
written i r changed u h =
    elim (Bool-cases (
      any (λ x. x.intent_id == i.intent_id)
        (apply_transition (transition i.action r.status) r).intents)) [
          | inl e ↦ absurd (ground arith)
          | inr e ↦ (ground arith, ground arith)
        ]

controlled :
    (r u : Run) (status : RunStatus) (barrier : Option Barrier)
    → u ≡ record r {
      status = status;
      barrier = barrier;
      intents = u.intents;
      checkpoints = u.checkpoints;
      outbox = u.outbox;
    }
    → Controlled r u
controlled r u status barrier w = ground arith

transition-Changed :
    (action : StateChangeAction) (r : Run) (changed : Bool) (u : Run)
    (next : Option (RunStatus × Option Barrier))
    → transition action r.status ≡ next
    → changed ≡ is_some next
    → u ≡ record (apply_transition next r) {
      intents = u.intents;
      checkpoints = u.checkpoints;
      outbox = u.outbox;
    }
    → Changed action r changed u
unfolding apply_transition
transition-Changed action r changed u none e c w =
    (controlled r u r.status r.barrier w, inr (c, e, ap (λ x. x.status) w, ap (λ x. x.barrier) w))
transition-Changed action r changed u (some (status, barrier)) e c w = (
  controlled r u status barrier w,
  inl (
    c,
    e
        ∙ ap {A = Run} {B = Option (RunStatus × Option Barrier)} (λ x. some (x.status, x.barrier))
            (sym w),
  ),
)

committed :
    (v : VerifierControl) (action : StateChangeAction) (r s : Run) (outcome : ControlOutcome)
    (body : Except (Bool × Run))
    → (let (result, after) = settle body r in continue result after (after_change v action))
      ≡ (ok outcome, s)
    → (changed : Bool) × (u : Run) × (body ≡ ok (changed, u))
      × (after_change v action changed u ≡ (ok outcome, s))
committed v action r s outcome (ok (changed, u)) h = (changed, u, refl, h)
committed v action r s outcome (raise e) h = absurd (ground arith)

after_rejected :
    (v : VerifierControl) (action : StateChangeAction) (u s : Run) (outcome : ControlOutcome)
    → after_change v action false u ≡ (ok outcome, s)
    → (outcome ≡ ControlOutcome.rejected) × (s ≡ u)
unfolding after_change outcome_of
after_rejected v action u s outcome h = ground arith

after_applied :
    (v : VerifierControl) (action : StateChangeAction) (u s : Run) (outcome : ControlOutcome)
    → after_change v action true u ≡ (ok outcome, s)
    → (outcome ≡ ControlOutcome.applied)
      × ((s ≡ u) ⊎ (s ≡ cancel_external_handles v (cancel_pending "interrupt" u)))
unfolding after_change outcome_of
after_applied v action u s outcome h = ground arith

aside :
    (v : VerifierControl) (u s : Run)
    → (s ≡ u) ⊎ (s ≡ cancel_external_handles v (cancel_pending "interrupt" u))
    → Aside u s
aside v u s (inl h) = subst (Aside u) (sym h) refl
aside v u s (inr h) = subst (Aside u) (sym h) (interrupted-Aside v u)

Controlled-Aside : (r u s : Run) → Controlled r u → Aside u s → Controlled r s
Controlled-Aside r u s c a = ground arith

outcome_cases :
    (v : VerifierControl) (i : StateChangeControlIntent) (r u s : Run) (outcome : ControlOutcome)
    (changed : Bool)
    → Controlled r u
    → ((changed ≡ true) × (transition i.action r.status ≡ some (u.status, u.barrier)))
      ⊎ ((changed ≡ false)
          × (transition i.action r.status ≡ none)
          × (u.status ≡ r.status)
          × (u.barrier ≡ r.barrier))
    → after_change v i.action changed u ≡ (ok outcome, s)
    → Controlled r s
      × (((outcome ≡ ControlOutcome.applied) × Allowed i.action r.status s.status s.barrier)
          ⊎ ((outcome ≡ ControlOutcome.rejected)
              × ((after : RunStatus) (barrier : Option Barrier)
                  → ¬ (Allowed i.action r.status after barrier))
              × (s.status ≡ r.status)
              × (s.barrier ≡ r.barrier)))
outcome_cases v i r u s outcome true c (inl (e, t)) h =
    let (applied, k) = after_applied v i.action u s outcome h in
    let a = aside v u s k in
    (
      Controlled-Aside r u s c a,
      inl (
        applied,
        transition-Allowed i.action r.status s.status s.barrier (
            t
            ∙ ap {A = Run} {B = Option (RunStatus × Option Barrier)}
                (λ x. some (x.status, x.barrier)) (sym a)),
      ),
    )
outcome_cases v i r u s outcome false c (inr (e, t, st, ba)) h =
    let (rejected, k) = after_rejected v i.action u s outcome h in
    (
      subst (Controlled r) (sym k) c,
      inr (
        rejected,
        (λ after barrier a.
            let t' = Allowed-transition i.action r.status after barrier a in absurd (ground arith)),
        ap (λ x. x.status) k ∙ st,
        ap (λ x. x.barrier) k ∙ ba,
      ),
    )
outcome_cases v i r u s outcome true c (inr (e, t, st, ba)) h = absurd (ground arith)
outcome_cases v i r u s outcome false c (inl (e, rest)) h = absurd (ground arith)

-- An action on which `control` returns writes only the status, the barrier, the intents, the branches,
-- the external handles, checkpoints and events. Either it is applied, and the status and the barrier
-- go as the table of allowed actions says, or it is rejected, the table has no entry for the action
-- in that status, and the status and the barrier stay.
pub control_changes :
    (v : VerifierControl) (i : StateChangeControlIntent) (r s : Run) (outcome : ControlOutcome)
    → control v (state_change i) r ≡ (ok outcome, s)
    → Controlled r s
      × (((outcome ≡ ControlOutcome.applied) × Allowed i.action r.status s.status s.barrier)
          ⊎ ((outcome ≡ ControlOutcome.rejected)
              × ((after : RunStatus) (barrier : Option Barrier)
                  → ¬ (Allowed i.action r.status after barrier))
              × (s.status ≡ r.status)
              × (s.barrier ≡ r.barrier)))
unfolding control transaction
control_changes v i r s outcome h =
    let (changed, u, committed', after) = committed v i.action r s outcome (change_state i r) h in
    let (c, w) = written i r changed u committed' in
    let (controlled', fate) =
      transition-Changed i.action r changed u (transition i.action r.status) refl c w in
    outcome_cases v i r u s outcome changed controlled' fate after
