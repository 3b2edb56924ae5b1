-- ===== src/Runtime/Branches/Isolation.antt =====
-- The methods of runtime/parallel.py on one branch, and what they leave as it was.
use graph_engineering.Prelude.{
  ℕ, ◌+◌, String, Bool, true, false, Option, none, some, List, ◌≡◌, refl, ◌∙◌, subst, inl, inr,
  arith, ok, Bool-cases, >>=-eq-ok, is_some, leb, ◌&&◌,
}
use graph_engineering.Models.Common.{truthy}
use graph_engineering.Models.Graph.{Edge, Node, NestedNode}
use graph_engineering.Models.Reports.{is_terminal}
use graph_engineering.Models.Results.{
  Result, VerifierResult, VerifierStatus, BranchResult, verifier,
}
use graph_engineering.Runtime.Rows.{AttemptId, BudgetRow, BranchNodeRow, BranchAttemptRow}
use graph_engineering.Runtime.State.{Exec, Run, transaction, checkpoint}
use graph_engineering.Runtime.Routes.{is_repair}
use graph_engineering.Runtime.Attempts.{charge_call}
use graph_engineering.Runtime.Artifacts.{register_artifacts}
use graph_engineering.Runtime.Artifacts.Frame.{register_artifacts-Framed}
use graph_engineering.Runtime.Invariant.{within}
use graph_engineering.Runtime.Branches.Ends.{
  in_branch, end_branch, store_branch, finish_branch, block_branch, branch_outcome,
}
use graph_engineering.Runtime.Branches.Attempts.{
  find_nested, qualified, record_branch_attempt, begin_branch_attempt, start_branch_attempt,
  keep_branch_handle, write_branch_result, keep_open_result, keep_branch_result, start_nested_row,
}
use graph_engineering.Runtime.Branches.Routes.{
  Query, charge_shared_repair, charge_nested_repair, take_branch_edge, follow_branch_edge,
  shared_repairs_exhausted, block_if_exhausted, dispatch_branch_edge, route_nested, route_branch,
  route_if_kept, keep_and_route, persist_branch_verifier, persist_branch_result, continue_branch,
  continue_branch_external,
}
use graph_engineering.Runtime.Branches.Apart.{
  Apart, apart_refl, transaction_apart, continue_apart, apart_of, others_kept, rows_kept,
}

module _ (container branch : String) where
  abbrev Here : Run → Run → Type 0
  Here = Apart container branch

  end_apart : (result : BranchResult) (r : Run) → Here r (end_branch container branch result r)
  unfolding end_branch
  end_apart result r =
      apart_of container branch r _ refl (others_kept container branch _ r.branches (λ b. refl))
        refl (λ h. h)

  pub block_apart :
      (reason : String) (error_status : Bool) (r : Run)
      → Here r (block_branch container branch reason error_status r)
  unfolding block_branch end_branch
  block_apart reason error_status r =
      apart_of container branch r _ refl (others_kept container branch _ r.branches (λ b. refl))
        refl (λ h. h)

  pub finish_apart :
      (result : Result) (r : Run) → Here r (finish_branch container branch result r).1
  unfolding finish_branch transaction store_branch end_branch
  finish_apart result r =
      continue_apart container branch (branch_outcome container branch result r) _
        (apart_refl container branch r)
        (λ outcome.
          apart_of container branch r _ refl (others_kept container branch _ r.branches (λ b. refl))
            refl (λ h. h))

  recorded_apart :
      (nested : NestedNode) (number now : ℕ) (b : BudgetRow) (r : Run)
      → r.budget ≡ some b
      → leb b.max_executor_calls b.executor_calls ≡ false
      → Here r (record_branch_attempt container branch nested number now b r)
  unfolding record_branch_attempt start_nested_row charge_call
  recorded_apart nested number now b r has_budget free =
      apart_of container branch r _ refl (others_kept container branch _ r.branches (λ x. refl))
        (rows_kept container branch nested.node_id _ r.branch_nodes (λ n. refl)) (λ h. ground arith)

  begun :
      (nested : NestedNode) (now : ℕ) (r : Run) (id : AttemptId) (s : Run)
      → begin_branch_attempt container branch nested now r ≡ ok (id, s)
      → (b : BudgetRow) × (row : BranchNodeRow) × (r.budget ≡ some b)
        × (find_nested container branch nested.node_id r ≡ some row)
        × (leb b.max_executor_calls b.executor_calls ≡ false)
        × (s ≡ record_branch_attempt container branch nested (row.attempt_count + 1) now b r)
  unfolding begin_branch_attempt
  begun nested now r id s e = ground arith

  pub start_apart :
      (nested : NestedNode) (now : ℕ) (r : Run)
      → Here r (start_branch_attempt container branch nested now r).1
  unfolding start_branch_attempt
  start_apart nested now r =
      transaction_apart container branch (begin_branch_attempt container branch nested now) r
        λ id s e.
          let (b, row, has_budget, _, free, written) = begun nested now r id s e in
          rw written (recorded_apart nested (row.attempt_count + 1) now b r has_budget free)

  charged_apart :
      (repair : Bool) (n : BranchNodeRow)
      → in_branch container branch (charge_nested_repair repair n) ≡ in_branch container branch n
  unfolding charge_nested_repair
  charged_apart true n = refl
  charged_apart false n = refl

  repair_within :
      (repair : Bool) (budget : Option BudgetRow)
      → (repair ≡ true → shared_repairs_exhausted budget ≡ false)
      → within budget ≡ true
      → within (charge_shared_repair repair budget) ≡ true
  unfolding charge_shared_repair shared_repairs_exhausted
  repair_within true none free h = h
  repair_within true (some b) free h = let left = free refl in ground arith
  repair_within false budget free h = h

  take_apart :
      (repair : Bool) (node_id : String) (e : Edge) (r : Run)
      → (repair ≡ true → shared_repairs_exhausted r.budget ≡ false)
      → Here r (take_branch_edge repair container branch node_id e r)
  unfolding take_branch_edge
  take_apart repair node_id e r free =
      apart_of container branch r _ refl (others_kept container branch _ r.branches (λ b. refl))
        (rows_kept container branch e.to_node _ _ (λ n. refl)
          ∙ rows_kept container branch node_id _ _ (λ n. refl)
          ∙ rows_kept container branch node_id _ _ (charged_apart repair))
        (repair_within repair r.budget free)

  follow_apart :
      (node_id : String) (result : Result) (e : Edge) (r : Run) (x : Bool) (s : Run)
      → follow_branch_edge container branch node_id result e r ≡ ok (x, s)
      → Here r s
  unfolding follow_branch_edge
  follow_apart node_id result e r x s p = elim (Bool-cases (is_some r.barrier)) [
    | inl barred ↦ let same : s ≡ r = ground arith in rw same (apart_refl container branch r)
    | inr open' ↦ elim (Bool-cases (is_repair e result && shared_repairs_exhausted r.budget)) [
      | inl spent ↦ let same : s ≡ r = ground arith in rw same (apart_refl container branch r)
      | inr left ↦
          let taken : s ≡ take_branch_edge (is_repair e result) container branch node_id e r =
            ground arith in
          rw taken (take_apart (is_repair e result) node_id e r (λ repair. ground arith))
    ]
  ]

  blocked_apart :
      (exhausted : Bool) (r : Run) → Here r (block_if_exhausted exhausted container branch r).1
  unfolding block_if_exhausted
  blocked_apart true r = block_apart _ false r
  blocked_apart false r = apart_refl container branch r

  dispatch_apart :
      (node_id : String) (result : Result) (chosen : Option Edge) (r : Run)
      → Here r (dispatch_branch_edge container branch node_id result chosen r).1
  unfolding dispatch_branch_edge
  dispatch_apart node_id result none r = finish_apart result r
  dispatch_apart node_id result (some e) r =
      let follow = follow_branch_edge container branch node_id result e in
      continue_apart container branch (transaction follow r).0 _
        (transaction_apart container branch follow r (follow_apart node_id result e r))
        (λ exhausted. blocked_apart exhausted (transaction follow r).1)

  nested_apart :
      (edges : List Edge) (node_id : String) (result : Result) (row : Option BranchNodeRow)
      (r : Run)
      → Here r (route_nested edges container branch node_id result row r).1
  unfolding route_nested
  nested_apart edges node_id result none r = apart_refl container branch r
  nested_apart edges node_id result (some row) r = dispatch_apart node_id result _ r

  pub route_apart :
      (edges : List Edge) (node_id : String) (result : Result) (r : Run)
      → Here r (route_branch edges container branch node_id result r).1
  unfolding route_branch
  route_apart edges node_id result r =
      nested_apart edges node_id result (find_nested container branch node_id r) r

  handle_apart :
      (node : Node) (id : AttemptId) (v : VerifierResult) (r : Run)
      → Here r (keep_branch_handle node id v r)
  unfolding keep_branch_handle
  handle_apart node id v r = apart_of container branch r _ refl refl refl (λ h. h)

  open_apart :
      (nested : NestedNode) (id : AttemptId) (result : Result) (r : Run) (x : Bool) (s : Run)
      → keep_open_result container branch nested id result r ≡ ok (x, s)
      → Here r s
  unfolding keep_open_result write_branch_result
  open_apart nested id result r x s e =
      let written = write_branch_result container branch nested id result r in
      let (t, p, q) = >>=-eq-ok (register_artifacts _ _ _ written) _ e in
      let same : checkpoint "parallel_result_checkpointed" t ≡ s = ground arith in
      let frame = register_artifacts-Framed _ _ _ written t p in
      subst (Here r) same (
        rw frame (
          apart_of container branch r _ refl refl
            (rows_kept container branch nested.node_id _ r.branch_nodes (λ n. refl)) (λ h. h)))

  result_apart :
      (nested : NestedNode) (id : AttemptId) (result : Result) (r : Run) (x : Bool) (s : Run)
      → keep_branch_result container branch nested id result r ≡ ok (x, s)
      → Here r s
  unfolding keep_branch_result
  result_apart nested id result r x s e = elim (Bool-cases (is_terminal r.status)) [
    | inl over ↦ let same : s ≡ r = ground arith in rw same (apart_refl container branch r)
    | inr open' ↦ open_apart nested id result r x s (ground arith)
  ]

  kept_apart :
      (kept : Bool) (edges : List Edge) (node_id : String) (result : Result) (r : Run)
      → Here r (route_if_kept kept edges container branch node_id result r).1
  unfolding route_if_kept
  kept_apart true edges node_id result r = route_apart edges node_id result r
  kept_apart false edges node_id result r = apart_refl container branch r

  keep_apart :
      (edges : List Edge) (nested : NestedNode) (id : AttemptId) (result : Result) (r : Run)
      → Here r (keep_and_route edges container branch nested id result r).1
  unfolding keep_and_route
  keep_apart edges nested id result r =
      let keep = keep_branch_result container branch nested id result in
      continue_apart container branch (transaction keep r).0 _
        (transaction_apart container branch keep r (result_apart nested id result r))
        (λ kept. kept_apart kept edges nested.node_id result (transaction keep r).1)

  verifier_apart :
      (status : VerifierStatus) (edges : List Edge) (nested : NestedNode) (id : AttemptId)
      (v : VerifierResult) (r : Run)
      → Here r (persist_branch_verifier status edges container branch nested id v r).1
  unfolding persist_branch_verifier
  verifier_apart VerifierStatus.pending edges nested id v r =
      elim (Bool-cases (truthy v.external_handle)) [
        | inl e ↦ rw e (handle_apart (qualified container branch nested) id v r)
        | inr e ↦ rw e (apart_refl container branch r)
      ]
  verifier_apart _ edges nested id v r = keep_apart edges nested id (verifier v) r

  pub persist_apart :
      (edges : List Edge) (nested : NestedNode) (id : AttemptId) (result : Result) (r : Run)
      → Here r (persist_branch_result edges container branch nested id result r).1
  unfolding persist_branch_result
  persist_apart edges nested id (verifier v) r = verifier_apart v.status edges nested id v r
  persist_apart edges nested id result r = keep_apart edges nested id result r

  asked_apart :
      (ask : Query → Exec VerifierResult) (asked : (q : Query) (s : Run) → Here s (ask q s).1)
      (edges : List Edge) (nested : NestedNode) (query : Option Query)
      (attempt : Option BranchAttemptRow) (r : Run)
      → Here r (continue_branch ask edges container branch nested query attempt r).1
  unfolding continue_branch
  asked_apart ask asked edges nested (some query) (some attempt) r =
      continue_apart container branch (ask query r).0 _ (asked query r)
        (λ v. persist_apart edges nested attempt.attempt_id (verifier v) (ask query r).1)
  asked_apart ask asked edges nested _ _ r = block_apart _ true r

  pub external_apart :
      (ask : Query → Exec VerifierResult) (asked : (q : Query) (s : Run) → Here s (ask q s).1)
      (edges : List Edge) (nested : NestedNode) (r : Run)
      → Here r (continue_branch_external ask edges container branch nested r).1
  unfolding continue_branch_external
  external_apart ask asked edges nested r = asked_apart ask asked edges nested _ _ r
