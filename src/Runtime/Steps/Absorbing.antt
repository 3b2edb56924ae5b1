-- ===== src/Runtime/Steps/Absorbing.antt =====
-- Runs that have ended: the other methods of engine.py, and every sequence of calls.
use graph_engineering.Prelude.{
  ℕ, String, Bool, true, false, Option, none, some, List, [], ◌∷◌, ◌≡◌, refl, sym, ◌∙◌, subst,
  arith, Except, ok, raise, inl, inr, Bool-cases, is_some, if◌then◌else◌, >>=-eq-ok, any,
}
use graph_engineering.Models.Common.{Error}
use graph_engineering.Models.Graph.{Edge, ExecutionGraph}
use graph_engineering.Models.Results.{Result}
use graph_engineering.Models.Control.{
  ControlIntent, ControlOutcome, StateChangeControlIntent, QueryControlIntent, StateChangeAction,
  query, state_change,
}
use graph_engineering.Models.Reports.{RunStatus, TerminalStatus, TerminalReason, to_run_status}
use graph_engineering.Runtime.Rows.{NodeRow, HandleRow, Barrier}
use graph_engineering.Runtime.State.{Run, Exec, enqueue_event, transaction, continue, ◌>>>=◌}
use graph_engineering.Runtime.Queries.{find_node}
use graph_engineering.Runtime.Conditions.{select_edge}
use graph_engineering.Runtime.Routes.{
  conclude, follow_edge, finish_if_exhausted, dispatch_edge, route_row, route_found, route_result,
}
use graph_engineering.Runtime.Finish.{finish_uncertain_external_effect}
use graph_engineering.Runtime.Limits.{budget_limit_reached}
use graph_engineering.Runtime.Costs.{
  spend, charge, check_charge, finish_if, settle_charge, charge_cost, reserve, reserve_body,
  check_reservation, reserve_cost, find_reservation,
}
use graph_engineering.Runtime.Branches.{cancel_branches, cancellable}
use graph_engineering.Runtime.Branches.Apart.{apart_refl, Apart}
use graph_engineering.Runtime.Branches.Isolation.{
  start_apart, route_apart, persist_apart, external_apart, block_apart,
}
use graph_engineering.Runtime.Control.{
  VerifierControl, transition, apply_transition, record_intent, change_state, cancel_handle,
  cancel_rows, checkpointed_handles, cancel_external_handles, after_change, query_body,
  check_snapshot, control, cancel,
}
use graph_engineering.Runtime.Recovery.{settle_unconfirmed, unconfirmed, check_hashes, recover}
use graph_engineering.Runtime.Invariant.Spending.{reserve_cases}
use graph_engineering.Runtime.Transactions.{transaction_keeps}
use graph_engineering.Runtime.Steps.{
  Step, Reach, starts, persists, routes, honors, pauses, ends, cancels_branches, controls, cancels,
  charges, reserves, recovers, ends_uncertain, starts_branch, routes_branch, persists_branch,
  continues_branch, blocks_branch, here, next,
}
use graph_engineering.Runtime.Steps.Ended.{
  IsEnded, terminal_status, same_end, is_ended, finish_keeps, start_keeps, persist_keeps,
  honor_keeps, follow_keeps, committed_keeps,
}

no_transition :
    (t : TerminalStatus) (action : StateChangeAction) → transition action (to_run_status t) ≡ none
unfolding transition
no_transition t action = ground arith

not_requested : (t : TerminalStatus) → ¬ (to_run_status t ≡ RunStatus.pause_requested)
not_requested t e = ground (arith, terminal_status t)

module _ (t : TerminalStatus) (why : TerminalReason) (what : Option Error) where
  abbrev Kept : Run → Type 0
  Kept = IsEnded t why what

  continue_keeps :
      {A B : Type 0} (result : Except A) {r : Run} (f : A → Exec B)
      → Kept r
      → ((a : A) → Kept (f a r).1)
      → Kept (continue result r f).1
  continue_keeps (ok a) f h k = k a
  continue_keeps (raise e) f h k = h

  dispatch_keeps :
      (graph : ExecutionGraph) (node_id : String) (result : Result) (chosen : Option Edge) (now : ℕ)
      {r : Run}
      → Kept r
      → Kept (dispatch_edge graph node_id result chosen now r).1
  unfolding dispatch_edge conclude finish_if_exhausted
  dispatch_keeps graph node_id result none now h = finish_keeps t why what _ _ _ now h
  dispatch_keeps graph node_id result (some e) now {r = r} h =
      let after : Kept (transaction (follow_edge graph node_id result e) r).1 =
        transaction_keeps (follow_edge graph node_id result e) r Kept h
          (follow_keeps t why what graph node_id result e h) in
      continue_keeps (transaction (follow_edge graph node_id result e) r).0
        (λ exhausted. finish_if_exhausted exhausted now) after
        (elim [ true ↦ finish_keeps t why what _ _ _ now after | false ↦ after ])

  row_keeps :
      (graph : ExecutionGraph) (node_id : String) (row : NodeRow) (result : Option Result) (now : ℕ)
      {r : Run}
      → Kept r
      → Kept (route_row graph node_id row result now r).1
  unfolding route_row
  row_keeps graph node_id row none now h = h
  row_keeps graph node_id row (some result) now {r = r} h = elim (Bool-cases row.route_resolved) [
    | inl e ↦ rw e h
    | inr e ↦ rw e (
        dispatch_keeps graph node_id result
          (select_edge graph.edges r.edges node_id result row.attempt_count) now h)
  ]

  found_keeps :
      (graph : ExecutionGraph) (node_id : String) (found : Option NodeRow) (now : ℕ) {r : Run}
      → Kept r
      → Kept (route_found graph node_id found now r).1
  unfolding route_found
  found_keeps graph node_id none now h = h
  found_keeps graph node_id (some row) now h = row_keeps graph node_id row row.result now h

  route_keeps :
      (graph : ExecutionGraph) (node_id : String) (now : ℕ) {r : Run}
      → Kept r
      → Kept (route_result graph node_id now r).1
  unfolding route_result
  route_keeps graph node_id now {r = r} h = elim (Bool-cases (is_some r.barrier)) [
    | inl e ↦ rw e (honor_keeps t why what now h)
    | inr e ↦ rw e (found_keeps graph node_id (find_node node_id r.nodes) now h)
  ]

  branches_keep :
      (reason : String) (include_active : Bool) {r : Run}
      → Kept r
      → Kept (cancel_branches reason include_active r)
  unfolding cancel_branches
  branches_keep reason include_active {r = r} h =
      elim (Bool-cases (any (λ b. cancellable include_active b.status) r.branches)) [
        | inl e ↦ rw e (same_end t why what h refl refl refl refl)
        | inr e ↦ rw e h
      ]

  handle_keeps :
      (v : VerifierControl) (row : HandleRow) (handle : Option String) {r : Run}
      → Kept r
      → Kept (cancel_handle v row handle r)
  unfolding cancel_handle
  handle_keeps v row none h = h
  handle_keeps v row (some handle) h = same_end t why what h refl refl refl refl

  handles_keep :
      (v : VerifierControl) (rows : List HandleRow) {r : Run} → Kept r → Kept (cancel_rows v rows r)
  unfolding cancel_rows
  handles_keep v [] h = h
  handles_keep v (row ∷ rows) h = handles_keep v rows (handle_keeps v row row.handle h)

  intent_keeps :
      (run_id intent_id : String) (i : ControlIntent) (o : ControlOutcome) {r s : Run}
      → Kept r
      → record_intent run_id intent_id i o r ≡ ok s
      → Kept s
  unfolding record_intent
  intent_keeps run_id intent_id i o {r = r} {s = s} h e =
      let same : s ≡ record r { intents = s.intents } = ground arith in
      rw same (same_end t why what h refl refl refl refl)

  apply_keeps :
      (next' : Option (RunStatus × Option Barrier)) {r : Run}
      → next' ≡ none
      → Kept r
      → Kept (apply_transition next' r)
  unfolding apply_transition
  apply_keeps none e h = h
  apply_keeps (some n) e h = cc

  change_keeps :
      (i : StateChangeControlIntent) {r : Run}
      → Kept r
      → (x : Bool) (r' : Run) → change_state i r ≡ ok (x, r')
      → Kept r'
  unfolding change_state
  change_keeps i {r = r} h x r' e =
      let next' = transition i.action r.status in
      let refused : next' ≡ none = rw h.has_status (no_transition t i.action) in
      let (s, p, q) = >>=-eq-ok (record_intent _ _ _ _ (apply_transition next' r)) _ e in
      committed_keeps t why what _ _ _ _ x _ q
        (intent_keeps _ _ _ _ (apply_keeps next' refused h) p)

  query_keeps :
      (i : QueryControlIntent) {r : Run}
      → Kept r
      → (x : ControlOutcome) (r' : Run) → query_body i r ≡ ok (x, r')
      → Kept r'
  unfolding query_body
  query_keeps i {r = r} h x r' e =
      let (s, p, q) = >>=-eq-ok (record_intent _ _ _ _ r) _ e in
      let kept : Kept s = intent_keeps _ _ _ _ h p in
      let same : enqueue_event "query.snapshot.generated" none none s ≡ r' = ground arith in
      subst Kept same (same_end t why what kept refl refl refl refl)

  if_keeps : (b : Bool) {r s : Run} → Kept r → Kept s → Kept (if b then r else s)
  if_keeps true h k = h
  if_keeps false h k = k

  external_keep : (v : VerifierControl) {r : Run} → Kept r → Kept (cancel_external_handles v r)
  unfolding cancel_external_handles
  external_keep v {r = r} h = handles_keep v (checkpointed_handles r) h

  after_keeps :
      (v : VerifierControl) (action : StateChangeAction) (changed : Bool) {r : Run}
      → Kept r
      → Kept (after_change v action changed r).1
  unfolding after_change
  after_keeps v action changed h =
      if_keeps _ (external_keep v (branches_keep "interrupt" false h)) h

  control_keeps :
      (v : VerifierControl) (i : ControlIntent) {r : Run} → Kept r → Kept (control v i r).1
  unfolding control
  control_keeps v (query i) {r = r} h =
      continue_keeps (check_snapshot r) (λ _. transaction (query_body i)) h
        (λ _. transaction_keeps (query_body i) r Kept h (query_keeps i h))
  control_keeps v (state_change i) {r = r} h =
      let after : Kept (transaction (change_state i) r).1 =
        transaction_keeps (change_state i) r Kept h (change_keeps i h) in
      continue_keeps (transaction (change_state i) r).0 (after_change v i.action) after
        (λ changed. after_keeps v i.action changed after)

  cancel_keeps : (v : VerifierControl) (now : ℕ) {r : Run} → Kept r → Kept (cancel v now r).1
  unfolding cancel
  cancel_keeps v now h = rw (is_ended t why what h) h

  charge_keeps :
      (cost : ℕ) (node_id : Option String) {r : Run}
      → Kept r
      → (a : Unit {0}) (r' : Run) → charge cost node_id r ≡ ok (a, r')
      → Kept r'
  unfolding charge spend
  charge_keeps cost node_id {r = r} h a r' e = absurd (ground (arith, is_ended t why what h))

  charge_cost_keeps :
      (graph : ExecutionGraph) (cost : ℕ) (node_id : Option String) (now : ℕ) {r : Run}
      → Kept r
      → Kept (charge_cost graph cost node_id now r).1
  unfolding charge_cost settle_charge finish_if
  charge_cost_keeps graph cost node_id now {r = r} h =
      let after : Kept (transaction (charge cost node_id) r).1 =
        transaction_keeps (charge cost node_id) r Kept h (charge_keeps cost node_id h) in
      continue_keeps (check_charge graph cost node_id r)
        (λ node. transaction (charge cost node_id) >>>= λ _. settle_charge node now) h
        (λ node.
          continue_keeps (transaction (charge cost node_id) r).0 (λ _. settle_charge node now) after
            (λ _.
              continue_keeps
                (budget_limit_reached node true false now (transaction (charge cost node_id) r).1)
                (λ reached. finish_if reached now) after
                (elim [ true ↦ finish_keeps t why what _ _ _ now after | false ↦ after ])))

  reserve_keeps :
      (graph : ExecutionGraph) (id : String) (cost : ℕ) (node_id : Option String) {r : Run}
      → Kept r
      → (x : Bool) (r' : Run) → reserve_body graph id cost node_id r ≡ ok (x, r')
      → Kept r'
  unfolding reserve_body reserve spend
  reserve_keeps graph id cost node_id {r = r} h x r' e =
      elim (reserve_cases graph id cost node_id (find_reservation id r) r x r' e) [
        | inl same ↦ rw same h
        | inr new ↦ rw new (same_end t why what h refl refl refl refl)
      ]

  reserve_cost_keeps :
      (graph : ExecutionGraph) (id : String) (cost : ℕ) (node_id : Option String) {r : Run}
      → Kept r
      → Kept (reserve_cost graph id cost node_id r).1
  unfolding reserve_cost
  reserve_cost_keeps graph id cost node_id {r = r} h =
      continue_keeps (check_reservation id cost r)
        (λ _. transaction (reserve_body graph id cost node_id)) h
        (λ _.
          transaction_keeps (reserve_body graph id cost node_id) r Kept h
            (reserve_keeps graph id cost node_id h))

  unconfirmed_keeps :
      (node_id : Option String) (now : ℕ) {r : Run}
      → Kept r
      → Kept (settle_unconfirmed node_id now r).1
  unfolding settle_unconfirmed finish_uncertain_external_effect
  unconfirmed_keeps none now h = h
  unconfirmed_keeps (some node_id) now h =
      finish_keeps t why what _ _ _ now (same_end t why what h refl refl refl refl)

  recover_keeps :
      (graph_hash contract_hash : String) (now : ℕ) {r : Run}
      → Kept r
      → Kept (recover graph_hash contract_hash now r).1
  unfolding recover
  recover_keeps graph_hash contract_hash now {r = r} h =
      continue_keeps (check_hashes graph_hash contract_hash r)
        (λ _ s. settle_unconfirmed (unconfirmed s) now s) h
        (λ _. unconfirmed_keeps (unconfirmed r) now h)

  Apart-keeps :
      (container branch : String) {r s : Run} → Apart container branch r s → Kept r → Kept s
  Apart-keeps container branch a h =
      same_end t why what h a.same_status a.same_barrier a.same_reason a.same_error

  uncertain_keeps :
      (node_id : String) (now : ℕ) {r : Run}
      → Kept r
      → Kept (finish_uncertain_external_effect node_id now r).1
  unfolding finish_uncertain_external_effect settle_unconfirmed
  uncertain_keeps node_id now h = unconfirmed_keeps (some node_id) now h

  Step-keeps : {graph : ExecutionGraph} {r s : Run} → Step graph r s → Kept r → Kept s
  Step-keeps (starts node now) h = start_keeps t why what node now h
  Step-keeps (persists node id result valid) h = persist_keeps t why what node id result h
  Step-keeps {graph = graph} (routes node_id now) h = route_keeps graph node_id now h
  Step-keeps (honors now) h = honor_keeps t why what now h
  Step-keeps (pauses e) h = absurd (not_requested t (sym h.has_status ∙ e))
  Step-keeps (ends status reason error now f) h = finish_keeps t why what status reason error now h
  Step-keeps (cancels_branches reason include_active) h = branches_keep reason include_active h
  Step-keeps (controls v i) h = control_keeps v i h
  Step-keeps (cancels v now) h = cancel_keeps v now h
  Step-keeps {graph = graph} (charges cost node_id now) h =
      charge_cost_keeps graph cost node_id now h
  Step-keeps {graph = graph} (reserves id cost node_id) h =
      reserve_cost_keeps graph id cost node_id h
  Step-keeps (recovers graph_hash contract_hash now) h =
      recover_keeps graph_hash contract_hash now h
  Step-keeps (ends_uncertain node_id now) h = uncertain_keeps node_id now h
  Step-keeps (starts_branch c b nested now) h = Apart-keeps c b (start_apart c b nested now _) h
  Step-keeps (routes_branch c b edges node_id result) h =
      Apart-keeps c b (route_apart c b edges node_id result _) h
  Step-keeps (persists_branch c b edges nested id result) h =
      Apart-keeps c b (persist_apart c b edges nested id result _) h
  Step-keeps (continues_branch c b ask edges nested) h =
      Apart-keeps c b
        (external_apart c b (λ q s. (ask q, s)) (λ q s. apart_refl c b s) edges nested _) h
  Step-keeps (blocks_branch c b reason error_status) h =
      Apart-keeps c b (block_apart c b reason error_status _) h

  -- Whatever calls follow, in whatever order, a run that has ended with no barrier keeps its status,
  -- its terminal reason and its error, and gets no barrier.
  pub Reach-IsEnded :
      (graph : ExecutionGraph) (r s : Run)
      → IsEnded t why what r
      → Reach graph r s
      → IsEnded t why what s
  Reach-IsEnded graph r s h here = h
  Reach-IsEnded graph r s h (next {s = m} path step) =
      Step-keeps step (Reach-IsEnded graph r m h path)
