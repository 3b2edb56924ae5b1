-- ===== src/Runtime/Invariant/Attempts.antt =====
-- The invariant and _start_attempt and _persist_result of engine.py.
use graph_engineering.Prelude.{
  ℕ, true, false, some, ◌≡◌, refl, inl, inr, arith, ok, ◌+◌, >>=-eq-ok, Bool-cases,
  All-update_where, leb, ◌&&◌,
}
use graph_engineering.Models.Common.{truthy}
use graph_engineering.Models.Graph.{Node}
use graph_engineering.Models.Results.{
  Result, VerifierResult, VerifierStatus, verifier, validated, is_pending_status,
}
use graph_engineering.Runtime.Rows.{AttemptId, BudgetRow}
use graph_engineering.Runtime.State.{Run}
use graph_engineering.Runtime.Artifacts.{register_artifacts}
use graph_engineering.Runtime.Attempts.{
  counts_call, record_attempt, begin_attempt, start_attempt, write_handle, write_result,
  keep_handle, keep_result, persist_verifier, persist_result,
}
use graph_engineering.Runtime.Transactions.{transaction_keeps}
use graph_engineering.Runtime.Verdicts.{validated-settled}
use graph_engineering.Runtime.Starts.{begin_attempt-Begun}
use graph_engineering.Runtime.Artifacts.Frame.{Framed, register_artifacts-Framed}
use graph_engineering.Runtime.Invariant.Steps.{committed-Inv}
use graph_engineering.Runtime.Invariant.{Inv, settled}

pub record_attempt-Inv :
    (node : Node) (number now : ℕ) (b : BudgetRow) {r : Run}
    → (counts_call node.node_type && leb b.max_executor_calls b.executor_calls) ≡ false
    → Inv r
    → r.budget ≡ some b
    → Inv (record_attempt node number now b r)
unfolding record_attempt
record_attempt-Inv node number now b free h e = record {
  in_phase = h.in_phase;
  in_budget = ground arith;
  results = All-update_where _ _ _ (λ x k. refl) h.results;
}

pub start_attempt-Inv : (node : Node) (now : ℕ) {r : Run} → Inv r → Inv (start_attempt node now r).1
unfolding start_attempt
start_attempt-Inv node now {r = r} h = transaction_keeps (begin_attempt node now) r Inv h λ id r' e.
    let (b, row, has_budget, _, _, _, free, _, _, _, written) =
      begin_attempt-Begun node now r id r' e in
    rw written (record_attempt-Inv node (row.attempt_count + 1) now b free h has_budget)

Framed-Inv : (r r' : Run) → Framed r r' → Inv r → Inv r'
Framed-Inv r r' e h =
    rw e (record { in_phase = h.in_phase; in_budget = h.in_budget; results = h.results })

keep_result-Inv :
    (node : Node) (id : AttemptId) (result : Result) {r : Run}
    → Inv r
    → settled (some result) ≡ true
    → (a : Unit {0}) (r' : Run) → keep_result node id result r ≡ ok (a, r')
    → Inv r'
unfolding keep_result
keep_result-Inv node id result {r = r} h f a r' e =
    let (s, p, q) = >>=-eq-ok (register_artifacts _ _ _ _) _ e in
    let written : Inv (write_result node id result r) = record {
      in_phase = h.in_phase;
      in_budget = h.in_budget;
      results = All-update_where _ _ _ (λ x k. f) h.results;
    } in
    let kept : Inv s = Framed-Inv _ s (register_artifacts-Framed _ _ _ _ s p) written in
    committed-Inv _ _ _ _ a tt q kept

keep_handle-Inv :
    (node : Node) (id : AttemptId) (v : VerifierResult) {r : Run}
    → Inv r
    → (a : Unit {0}) (r' : Run) → keep_handle node id v r ≡ ok (a, r')
    → Inv r'
unfolding keep_handle
keep_handle-Inv node id v {r = r} h a r' e =
    let (s, p, q) = >>=-eq-ok (register_artifacts _ _ _ _) _ e in
    let written : Inv (write_handle node id v r) = record {
      in_phase = h.in_phase;
      in_budget = h.in_budget;
      results = h.results;
    } in
    let kept : Inv s = Framed-Inv _ s (register_artifacts-Framed _ _ _ _ s p) written in
    committed-Inv _ _ _ _ a tt q kept

persist_verifier-Inv :
    (status : VerifierStatus) (node : Node) (id : AttemptId) (v : VerifierResult) {r : Run}
    → Inv r
    → (is_pending_status status ≡ false → settled (some (verifier v)) ≡ true)
    → Inv (persist_verifier status node id v r).1
unfolding persist_verifier
persist_verifier-Inv VerifierStatus.pending node id v {r = r} h f =
    elim (Bool-cases (truthy v.external_handle)) [
      | inl e ↦
          rw e (transaction_keeps (keep_handle node id v) r Inv h (keep_handle-Inv node id v h))
      | inr e ↦ rw e h
    ]
persist_verifier-Inv _ node id v {r = r} h f =
    transaction_keeps (keep_result node id (verifier v)) r Inv h
      (keep_result-Inv node id (verifier v) h (f refl))

pub persist_result-Inv :
    (node : Node) (id : AttemptId) (result : Result) {r : Run}
    → Inv r
    → validated result ≡ ok tt
    → Inv (persist_result node id result r).1
unfolding persist_result
persist_result-Inv node id (verifier v) h valid =
    persist_verifier-Inv v.status node id v h (validated-settled (verifier v) valid)
persist_result-Inv node id result {r = r} h valid =
    transaction_keeps (keep_result node id result) r Inv h
      (keep_result-Inv node id result h (validated-settled result valid refl))
