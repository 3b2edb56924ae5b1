-- ===== src/Runtime/Steps/Ended.antt =====
-- Runs that have ended: _start_attempt, _persist_result, _route_result and the ends of engine.py.
use graph_engineering.Prelude.{
  ℕ, String, Bool, true, Option, none, some, List, ◌≡◌, refl, sym, ◌∙◌, subst, arith, Except, ok,
  inl, inr, Bool-cases, >>=-eq-ok,
}
use graph_engineering.Models.Common.{Artifact, Error, truthy}
use graph_engineering.Models.Graph.{Edge, ExecutionGraph, Node}
use graph_engineering.Models.Results.{Result, VerifierResult, VerifierStatus, verifier}
use graph_engineering.Models.Reports.{
  RunStatus, TerminalStatus, TerminalReason, to_run_status, is_terminal,
}
use graph_engineering.Runtime.Rows.{AttemptId, Role}
use graph_engineering.Runtime.State.{Run, seal}
use graph_engineering.Runtime.Artifacts.{register_artifacts}
use graph_engineering.Runtime.Artifacts.Frame.{register_artifacts-Framed}
use graph_engineering.Runtime.Finish.{finish, honor_barrier_after_result}
use graph_engineering.Runtime.Attempts.{
  begin_attempt, start_attempt, write_handle, write_result, keep_handle, keep_result,
  persist_verifier, persist_result,
}
use graph_engineering.Runtime.Routes.{take_edge, follow_edge}
use graph_engineering.Runtime.Invariant.Routing.{follow_edge_cases}
use graph_engineering.Runtime.Starts.{begin_attempt-Begun}
use graph_engineering.Runtime.Transactions.{transaction_keeps}

-- How a run ended, with no barrier left.
pub record IsEnded (status : TerminalStatus) (reason : TerminalReason) (error : Option Error)
    (r : Run) : Type 0 where
  pub has_status : r.status ≡ to_run_status status
  pub no_barrier : r.barrier ≡ none
  pub has_reason : r.terminal_reason ≡ some reason
  pub has_error : r.error ≡ error

-- An end that the status names is terminal.
pub terminal_status : (t : TerminalStatus) → is_terminal (to_run_status t) ≡ true
terminal_status TerminalStatus.succeeded = refl
terminal_status TerminalStatus.failed = refl
terminal_status _ = refl

pub running_not_ended : (t : TerminalStatus) → ¬ (to_run_status t ≡ RunStatus.running)
running_not_ended t e = ground (arith, terminal_status t)

module _ (t : TerminalStatus) (why : TerminalReason) (what : Option Error) where
  abbrev pub Kept : Run → Type 0
  Kept = IsEnded t why what

  -- What carries the four fields over.
  pub same_end :
      {r s : Run}
      → Kept r
      → s.status ≡ r.status
      → s.barrier ≡ r.barrier
      → s.terminal_reason ≡ r.terminal_reason
      → s.error ≡ r.error
      → Kept s
  same_end h a b c d = record {
    has_status = a ∙ h.has_status;
    no_barrier = b ∙ h.no_barrier;
    has_reason = c ∙ h.has_reason;
    has_error = d ∙ h.has_error;
  }

  pub is_ended : {r : Run} → Kept r → is_terminal r.status ≡ true
  is_ended h = rw h.has_status (terminal_status t)

  pub finish_keeps :
      (status : TerminalStatus) (reason : TerminalReason) (error : Option Error) (now : ℕ) {r : Run}
      → Kept r
      → Kept (finish status reason error now r).1
  unfolding finish
  finish_keeps status reason error now h = rw (is_ended h) h

  pub start_keeps : (node : Node) (now : ℕ) {r : Run} → Kept r → Kept (start_attempt node now r).1
  unfolding start_attempt
  start_keeps node now {r = r} h = transaction_keeps (begin_attempt node now) r Kept h λ id r' e.
      let (_, _, _, _, running, _, _, _, _, _, _) = begin_attempt-Begun node now r id r' e in
      absurd (running_not_ended t (sym h.has_status ∙ running))

  registered_keeps :
      (node_id : String) (role : Role) (list' : List Artifact) {r s : Run}
      → Kept r
      → register_artifacts node_id role list' r ≡ ok s
      → Kept s
  registered_keeps node_id role list' {r = r} {s = s} h e =
      let frame = register_artifacts-Framed node_id role list' r s e in
      rw frame (same_end h refl refl refl refl)

  pub committed_keeps :
      (reason event : String) (node_id : Option String) (id : Option AttemptId) {r r' : Run}
      {A : Type 0} (a b : A)
      → ◌≡◌ {A = Except (A × Run)} (ok (b, seal reason event node_id id r)) (ok (a, r'))
      → Kept r
      → Kept r'
  committed_keeps reason event node_id id {r = r} {r' = r'} a b e h =
      let same : seal reason event node_id id r ≡ r' = ground arith in
      subst Kept same (same_end h refl refl refl refl)

  keep_result_keeps :
      (node : Node) (id : AttemptId) (result : Result) {r : Run}
      → Kept r
      → (a : Unit {0}) (r' : Run) → keep_result node id result r ≡ ok (a, r')
      → Kept r'
  unfolding keep_result
  keep_result_keeps node id result {r = r} h a r' e =
      let (s, p, q) = >>=-eq-ok (register_artifacts _ _ _ (write_result node id result r)) _ e in
      let written : Kept (write_result node id result r) = same_end h refl refl refl refl in
      committed_keeps _ _ _ _ a tt q (registered_keeps _ _ _ written p)

  keep_handle_keeps :
      (node : Node) (id : AttemptId) (v : VerifierResult) {r : Run}
      → Kept r
      → (a : Unit {0}) (r' : Run) → keep_handle node id v r ≡ ok (a, r')
      → Kept r'
  unfolding keep_handle
  keep_handle_keeps node id v {r = r} h a r' e =
      let (s, p, q) = >>=-eq-ok (register_artifacts _ _ _ (write_handle node id v r)) _ e in
      let written : Kept (write_handle node id v r) = same_end h refl refl refl refl in
      committed_keeps _ _ _ _ a tt q (registered_keeps _ _ _ written p)

  persist_verifier_keeps :
      (status : VerifierStatus) (node : Node) (id : AttemptId) (v : VerifierResult) {r : Run}
      → Kept r
      → Kept (persist_verifier status node id v r).1
  unfolding persist_verifier
  persist_verifier_keeps VerifierStatus.pending node id v {r = r} h =
      elim (Bool-cases (truthy v.external_handle)) [
        | inl e ↦
            rw e
              (transaction_keeps (keep_handle node id v) r Kept h (keep_handle_keeps node id v h))
        | inr e ↦ rw e h
      ]
  persist_verifier_keeps _ node id v {r = r} h =
      transaction_keeps (keep_result node id (verifier v)) r Kept h
        (keep_result_keeps node id (verifier v) h)

  pub persist_keeps :
      (node : Node) (id : AttemptId) (result : Result) {r : Run}
      → Kept r
      → Kept (persist_result node id result r).1
  unfolding persist_result
  persist_keeps node id (verifier v) h = persist_verifier_keeps v.status node id v h
  persist_keeps node id result {r = r} h =
      transaction_keeps (keep_result node id result) r Kept h (keep_result_keeps node id result h)

  pub honor_keeps : (now : ℕ) {r : Run} → Kept r → Kept (honor_barrier_after_result now r).1
  unfolding honor_barrier_after_result
  honor_keeps now {r = r} h = simp h.no_barrier h

  pub follow_keeps :
      (graph : ExecutionGraph) (node_id : String) (result : Result) (e : Edge) {r : Run}
      → Kept r
      → (x : Bool) (r' : Run) → follow_edge graph node_id result e r ≡ ok (x, r')
      → Kept r'
  follow_keeps graph node_id result e {r = r} h x r' p =
      elim (follow_edge_cases graph node_id result e r x r' p) [
        | inl same ↦ rw same h
        | inr (n, _, _, taken) ↦ rw taken (unfold take_edge in same_end h refl refl refl refl)
      ]
