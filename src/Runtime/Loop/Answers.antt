-- ===== src/Runtime/Loop/Answers.antt =====
-- The results that _invoke of engine.py returns, and the validators of their models.
use graph_engineering.Prelude.{
  ℕ, String, false, not, [], eq_iff, ◌≢◌, ◌⊎◌, Option, none, some, List, ◌≡◌, refl, inl, inr, arith,
  Except, Exception, value_error, ok, raise, Bool-cases, >>=-eq-ok, >>-eq-ok, ◌>>=◌, subst, all,
  ◌||◌, is_some, ◌==◌, required, assertion_error, runtime_invariant,
}
use graph_engineering.Models.Common.{Error, ErrorKind}
use graph_engineering.Models.Graph.{Node, NodeType}
use graph_engineering.Models.Results.{
  Result, ParallelResult, BranchResult, ExecutorResult, VerifierResult, ExecutorStatus,
  VerifierStatus, expected_status, executor, verifier, parallel, validated,
  canonical_aggregate_is_consistent, distinguish_failed_from_error_executor,
  distinguish_failed_from_error_verifier,
}
use graph_engineering.Runtime.Rows.{AttemptId}
use graph_engineering.Runtime.State.{Run, Exec, continue}
use graph_engineering.Runtime.Joins.{
  join, is_finished, only_parallel, join_results, joined as joined_result, aggregate, no_rows,
  branches_of, branch_results,
}
use graph_engineering.Runtime.Branches.Ends.{subgraph_of, subgraph_result}
use graph_engineering.Runtime.Branches.Pool.{
  Boundary, step, open_step, pool_step, after_pool, aggregate_result, first_branch, step_limit,
  scheduled, run_branches,
}
use graph_engineering.Runtime.Queries.{find_node}
use graph_engineering.Runtime.Branches.Routes.{Query}
use graph_engineering.Runtime.Boundaries.{
  World, exception_text, boundary_answer, boundary_error, boundary_result, stand_for, caught,
  joined, executed, called, invoke_with,
}

-- What a result has when its model has been validated.
abbrev pub Valid : Option Result → Type 0
Valid none = Unit
Valid (some result) = validated result ≡ ok tt

answer-Valid : (t : NodeType) (text : String) → Valid (some (boundary_answer t text))
unfolding boundary_answer validated distinguish_failed_from_error_executor
    distinguish_failed_from_error_verifier
answer-Valid NodeType.verifier text = refl
answer-Valid _ text = refl

caught-Valid :
    (t : NodeType) (result : Except (Option Result)) (x : Option Result)
    → ((y : Option Result) → result ≡ ok y → Valid y)
    → caught t result ≡ ok x
    → Valid x
unfolding caught stand_for boundary_result
caught-Valid t (ok y) x h e = let same : y ≡ x = ground arith in subst Valid same (h y refl)
caught-Valid t (raise error) x h e =
    let text = exception_text error in
    let (answer, p, q) = >>=-eq-ok (boundary_result t text) (λ a. ok (some a)) e in
    let (_, made) = >>-eq-ok _ (ok (boundary_answer t text)) p in
    let same : some (boundary_answer t text) ≡ x = ground arith in
    subst Valid same (answer-Valid t text)

joins-valid :
    (container : String) (bs : List BranchResult) (p : ParallelResult)
    → join_results container bs ≡ ok (some p)
    → canonical_aggregate_is_consistent p ≡ ok tt
unfolding join_results
joins-valid container bs p e =
    let (s, _, q) =
      >>=-eq-ok (required (expected_status bs) (value_error "max() of an empty sequence")) _ e in
    let (fits, made) =
      >>-eq-ok (canonical_aggregate_is_consistent (joined_result container bs s)) _ q in
    let same : joined_result container bs s ≡ p = ground arith in
    subst (λ x. canonical_aggregate_is_consistent x ≡ ok tt) same fits

aggregate-valid :
    (container : String) (r : Run) (p : ParallelResult)
    → aggregate container r ≡ ok (some p)
    → canonical_aggregate_is_consistent p ≡ ok tt
unfolding aggregate
aggregate-valid container r p e =
    elim (Bool-cases (
      no_rows (branches_of container r)
      || not (all (λ b. is_finished b.status) (branches_of container r)))) [
        | inl absent ↦ ground arith
        | inr there ↦
            let some_rows : (branch_results (branches_of container r) >>= join_results container)
                ≡ ok (some p) =
              ground arith in
            let (bs, _, q) = >>=-eq-ok (branch_results (branches_of container r)) _ some_rows in
            joins-valid container bs p q
      ]

subgraph-valid :
    (b : BranchResult) (x : ExecutorResult)
    → subgraph_result b ≡ ok x
    → distinguish_failed_from_error_executor x ≡ ok tt
unfolding subgraph_result
subgraph-valid b x e =
    let (y, _, q) = >>=-eq-ok (subgraph_of b.status b) _ e in
    let (fits, made) = >>-eq-ok (distinguish_failed_from_error_executor y) (ok y) q in
    let same : y ≡ x = ground arith in
    subst (λ z. distinguish_failed_from_error_executor z ≡ ok tt) same fits

only-valid :
    (result : Result) (p : ParallelResult)
    → only_parallel result ≡ ok p
    → canonical_aggregate_is_consistent p ≡ ok tt
unfolding only_parallel
only-valid (parallel q) p e =
    let (fits, made) = >>-eq-ok (canonical_aggregate_is_consistent q) (ok q) e in
    let same : q ≡ p = ground arith in
    subst (λ x. canonical_aggregate_is_consistent x ≡ ok tt) same fits
only-valid (executor q) p e = cc
only-valid (verifier q) p e = cc

branch-Valid :
    (t : NodeType) (p : ParallelResult) (x : Option Result)
    → canonical_aggregate_is_consistent p ≡ ok tt
    → aggregate_result t (some p) ≡ ok x
    → Valid x
unfolding aggregate_result validated
branch-Valid NodeType.parallel p x h e =
    let same : some (parallel p) ≡ x = ground arith in subst Valid same h
branch-Valid _ p x h e =
    let (b, _, q) = >>=-eq-ok (first_branch p.branches) _ e in
    let (r, made, last) = >>=-eq-ok (subgraph_result b) _ q in
    let same : some (executor r) ≡ x = ground arith in subst Valid same (subgraph-valid b r made)

found-Valid :
    (node : Node) (r : Run) (found : Option ParallelResult) (x : Option Result)
    → aggregate node.node_id r ≡ ok found
    → aggregate_result node.node_type found ≡ ok x
    → Valid x
unfolding aggregate_result
found-Valid node r none x p q = let same : none ≡ x = ground arith in subst Valid same tt
found-Valid node r (some a) x p q =
    branch-Valid node.node_type a x (aggregate-valid node.node_id r a p) q

after-Valid :
    (node : Node) (stop : Option String) (r : Run) (x : Option Result)
    → (after_pool node stop r).0 ≡ ok x
    → Valid x
unfolding after_pool
after-Valid node (some reason) r x e = let same : none ≡ x = ground arith in subst Valid same tt
after-Valid node none r x e =
    let (found, p, q) = >>=-eq-ok (aggregate node.node_id r) (aggregate_result node.node_type) e in
    found-Valid node r found x p q

-- What a chain of methods returns, its last method has.
pub continue-eq-ok :
    {A B : Type 0} (result : Except A) (r : Run) (f : A → Exec B) {b : B}
    → (continue result r f).0 ≡ ok b
    → (a : A) × (result ≡ ok a) × ((f a r).0 ≡ ok b)
continue-eq-ok (ok a) r f e = (a, refl, e)
continue-eq-ok (raise error) r f e = cc

pooled-Valid :
    (w : Boundary) (node : Node) (now limit : ℕ) (r : Run) (x : Option Result)
    → (pool_step w node now limit r).0 ≡ ok x
    → Valid x
unfolding pool_step
pooled-Valid w node now limit r x e =
    let ids = scheduled node.node_id limit r in
    let (_, _, q) =
      continue-eq-ok (run_branches w node ids now r).0 (run_branches w node ids now r).1 _ e in
    after-Valid node _ _ x q

pub step-Valid :
    (w : Boundary) (node : Node) (now : ℕ) (r : Run) (x : Option Result)
    → (step w node now r).0 ≡ ok x
    → Valid x
unfolding step open_step
step-Valid w node now r x e = elim (Bool-cases (is_some r.barrier)) [
  | inl barred ↦ let same : none ≡ x = ground arith in subst Valid same tt
  | inr open' ↦
      let opened : (open_step w node now r).0 ≡ ok x = ground arith in
      let (limit, _, q) =
        continue-eq-ok (step_limit node.node_type node) r (pool_step w node now) opened in
      pooled-Valid w node now limit r x q
]

joined-Valid : (node : Node) (r : Run) (x : Option Result) → (joined node r).0 ≡ ok x → Valid x
unfolding joined validated join
joined-Valid node r x e =
    let (p, q, made) = >>=-eq-ok (join node r) (λ p. ok (some (parallel p))) e in
    let (spec, _, q1) = >>=-eq-ok (required node.join assertion_error) _ q in
    let (row, _, q2) =
      >>=-eq-ok
        (required (find_node spec.parallel_node_id r.nodes)
          (runtime_invariant "join source has no persisted parallel result"))
        _ q1 in
    let (result, _, q3) =
      >>=-eq-ok
        (required row.result (runtime_invariant "join source has no persisted parallel result")) _
        q2 in
    let same : some (parallel p) ≡ x = ground arith in subst Valid same (only-valid result p q3)

-- The executors and the verifiers return results that their models have validated.
pub record Sound (w : World) : Type 0 where
  pub executes :
      (node : Node) (id : AttemptId) (r : Run) (result : Result)
      → (w.execute node id r).0 ≡ ok result
      → validated result ≡ ok tt
  pub answers :
      (q : Query) (r : Run) (v : VerifierResult)
      → (w.query q r).0 ≡ ok v
      → validated (verifier v) ≡ ok tt

module _ (w : World) (sound : Sound w) (b : Boundary) where
  executed-Valid :
      (node : Node) (id : AttemptId) (r : Run) (x : Option Result)
      → (executed w node id r).0 ≡ ok x
      → Valid x
  unfolding executed stand_for
  executed-Valid node id r x e =
      let (result, p, made) = >>=-eq-ok (w.execute node id r).0 (λ a. ok (some a)) e in
      let same : some result ≡ x = ground arith in
      subst Valid same (sound.executes node id r result p)

  called-Valid :
      (t : NodeType) (node : Node) (id : AttemptId) (now : ℕ) (r : Run) (x : Option Result)
      → (called b w t node id now r).0 ≡ ok x
      → Valid x
  unfolding called
  called-Valid NodeType.parallel node id now r x e = step-Valid b node now r x e
  called-Valid NodeType.subgraph node id now r x e = step-Valid b node now r x e
  called-Valid NodeType.join node id now r x e = joined-Valid node r x e
  called-Valid _ node id now r x e = executed-Valid node id r x e

  pub invoke_with-Valid :
      (now : ℕ) (node : Node) (id : AttemptId) (r : Run) (x : Option Result)
      → (invoke_with b w now node id r).0 ≡ ok x
      → Valid x
  unfolding invoke_with
  invoke_with-Valid now node id r x e =
      caught-Valid node.node_type (called b w node.node_type node id now r).0 x
        (called-Valid node.node_type node id now r) e

-- A result that reports an exception with a text: an error with the text as its summary and as the
-- message of an error that is not to be retried, of the kind that the type of the node has.
abbrev pub Reports : NodeType → String → Result → Type 0
Reports NodeType.verifier text x =
    (v : VerifierResult) × (x ≡ verifier v)
    × (v.status ≡ VerifierStatus.error)
    × (v.summary ≡ text)
    × (v.retryable ≡ false)
    × (v.external_handle ≡ none)
    × ((e : Error) × (v.error ≡ some e)
        × (e.kind ≡ ErrorKind.verifier)
        × (e.message ≡ text)
        × (e.retryable ≡ false))
Reports _ text x =
    (y : ExecutorResult) × (x ≡ executor y)
    × (y.status ≡ ExecutorStatus.error)
    × (y.summary ≡ text)
    × (y.changed_files ≡ [])
    × (y.artifacts ≡ [])
    × ((e : Error) × (y.error ≡ some e)
        × (e.kind ≡ ErrorKind.executor)
        × (e.message ≡ text)
        × (e.retryable ≡ false))

answer-Reports : (t : NodeType) (text : String) → Reports t text (boundary_answer t text)
unfolding boundary_answer boundary_error
answer-Reports NodeType.verifier text =
    (_, refl, refl, refl, refl, refl, (_, refl, refl, refl, refl))
answer-Reports _ text = (_, refl, refl, refl, refl, refl, (_, refl, refl, refl, refl))

-- If what _invoke calls raises, _invoke leaves the run as the call has. If the text of the exception
-- is empty it raises in turn; otherwise it returns an error result with that text, a verifier's for a
-- verifier and an executor's for every other node, which is not to be retried.
pub invoke_with_raises :
    (b : Boundary) (w : World) (now : ℕ) (node : Node) (id : AttemptId) (r : Run) (e : Exception)
    → (called b w node.node_type node id now r).0 ≡ raise e
    → let text = exception_text e in
      ((invoke_with b w now node id r).1 ≡ (called b w node.node_type node id now r).1)
      × (((text ≡ "")
            × ((invoke_with b w now node id r).0
                ≡ raise (value_error "String should have at least 1 character")))
          ⊎ ((text ≢ "")
              × ((x : Result) × ((invoke_with b w now node id r).0 ≡ ok (some x))
                  × Reports node.node_type text x)))
unfolding invoke_with caught stand_for boundary_result
invoke_with_raises b w now node id r e raised = (
  refl,
  elim (Bool-cases (exception_text e == "")) [
    | inl silent ↦ inl (ground (arith, eq_iff (exception_text e) ""), rw raised (rw silent refl))
    | inr spoken ↦ inr (
      ground (arith, eq_iff (exception_text e) ""),
      (
        boundary_answer node.node_type (exception_text e),
        rw raised (rw spoken refl),
        answer-Reports node.node_type (exception_text e),
      ),
    )
  ],
)
