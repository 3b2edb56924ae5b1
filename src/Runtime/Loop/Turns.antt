-- ===== src/Runtime/Loop/Turns.antt =====
-- _run of engine.py as a sequence of the calls that Steps lists.
use graph_engineering.Prelude.{
  ℕ, String, Bool, true, false, ◌||◌, Option, none, some, List, [], ◌∷◌, ◌≡◌, refl, inl, inr,
  Except, value_error, ok, raise, budget_exhausted as exhausted_error, Bool-cases,
}
use graph_engineering.Models.Graph.{Node, ExecutionGraph}
use graph_engineering.Models.Results.{Result, VerifierResult, verifier, is_pending_status}
use graph_engineering.Models.Reports.{
  RunStatus, TerminalStatus, TerminalReason, human_interrupted, budget_exhausted, is_terminal,
}
use graph_engineering.Runtime.Rows.{NodeRow, AttemptId}
use graph_engineering.Runtime.State.{Run, Exec}
use graph_engineering.Runtime.Queries.{graph_node, is_running_status}
use graph_engineering.Runtime.Limits.{budget_limit_reached}
use graph_engineering.Runtime.Finish.{
  finish, is_paused, pause_at_safe_point, honor_barrier_after_result,
}
use graph_engineering.Runtime.Attempts.{start_attempt, persist_result, latest_attempt_id}
use graph_engineering.Runtime.Routes.{route_result}
use graph_engineering.Runtime.Branches.{cancel_incomplete}
use graph_engineering.Runtime.Branches.Routes.{Query}
use graph_engineering.Runtime.Branches.Pool.{step}
use graph_engineering.Runtime.Boundaries.{World, boundary, invoke}
use graph_engineering.Runtime.Invariant.{Inv, fits}
use graph_engineering.Runtime.Steps.{
  Reach, here, Reach-trans, Reach-Inv, starts, persists, routes, honors, pauses, ends,
  ends_uncertain, cancels_branches,
}
use graph_engineering.Runtime.Loop.{
  is_running_row, next_node_row, unresolved_result_row, route_if_running, settle_result,
  settle_answer, continue_query, continue_external, Turn, returns, stepped, continued,
  stepped_after, finish_turn, exhausted_turn, container_result, has_branches, resume_container,
  resume_row, route_turn, check_turn, is_pending_result, result_turn, invoke_turn, start_turn,
  row_turn, unresolved_turn, next_turn, budget_turn, is_interrupt, open_turn, status_turn, turn,
  after_turn, spend_step, steps_left, run,
}
use graph_engineering.Runtime.Loop.Answers.{Valid, Sound, invoke_with-Valid, step-Valid}
use graph_engineering.Runtime.Loop.Progress.{
  Leads, one, continues, step_reach, boundary_reach, invoke_reach,
}

module _ (graph : ExecutionGraph) where
  finish_reach :
      (status : TerminalStatus) (reason : TerminalReason) (returned : RunStatus) (now : ℕ) (r : Run)
      → fits status reason none ≡ true
      → Leads graph r (finish_turn status reason returned now r).1
  unfolding finish_turn
  finish_reach status reason returned now r f =
      continues graph (finish status reason none now r).0 _
        (one graph (ends status reason none now f)) (λ _ _. here)

  exhausted_reach : (now : ℕ) (r : Run) → Leads graph r (exhausted_turn now r).1
  unfolding exhausted_turn
  exhausted_reach now r =
      finish_reach TerminalStatus.failed budget_exhausted RunStatus.failed now r refl

  running_reach :
      (node_id : String) (now : ℕ) (r : Run)
      → Leads graph r (route_if_running graph node_id now r).1
  unfolding route_if_running
  running_reach node_id now r = elim (Bool-cases (is_running_status r.status)) [
    | inl e ↦ rw e (one graph (routes node_id now))
    | inr e ↦ rw e here
  ]

  settle_reach :
      (node_id : String) (now : ℕ) (r : Run) → Leads graph r (settle_result graph node_id now r).1
  unfolding settle_result
  settle_reach node_id now r =
      continues graph (honor_barrier_after_result now r).0 _ (one graph (honors now))
        (λ _ _. running_reach node_id now (honor_barrier_after_result now r).1)

  answer_reach :
      (node_id : String) (v : VerifierResult) (now : ℕ) (r : Run)
      → Leads graph r (settle_answer graph node_id v now r).1
  unfolding settle_answer
  answer_reach node_id v now r = elim (Bool-cases (is_pending_status v.status)) [
    | inl e ↦ rw e here
    | inr e ↦ rw e (settle_reach node_id now r)
  ]

  unresolved_reach :
      (row : Option NodeRow) (now : ℕ) (r : Run) → Leads graph r (unresolved_turn graph row now r).1
  unfolding unresolved_turn
  unresolved_reach none now r = here
  unresolved_reach (some row) now r =
      continues graph (route_result graph row.node_id now r).0 _
        (one graph (routes row.node_id now)) (λ _ _. here)

  route_reach :
      (node : Node) (now : ℕ) (reached : Bool) (r : Run)
      → Leads graph r (route_turn graph node now reached r).1
  unfolding route_turn stepped_after
  route_reach node now true r = exhausted_reach now r
  route_reach node now false r =
      continues graph (route_result graph node.node_id now r).0 _
        (one graph (routes node.node_id now)) (λ _ _. here)

  check_reach : (node : Node) (now : ℕ) (r : Run) → Leads graph r (check_turn graph node now r).1
  unfolding check_turn
  check_reach node now r = elim (Bool-cases (is_paused r.status || is_terminal r.status)) [
    | inl e ↦ rw e here
    | inr e ↦ rw e (
        continues graph (budget_limit_reached (some node) false false now r) _ here
          (λ reached _. route_reach node now reached r))
  ]

  result_reach :
      (node : Node) (id : AttemptId) (now : ℕ) (result : Option Result) (r : Run)
      → Valid result
      → Leads graph r (result_turn graph node id now result r).1
  unfolding result_turn
  result_reach node id now none r valid = here
  result_reach node id now (some result) r valid =
      let kept = (persist_result node id result r).1 in
      continues graph (persist_result node id result r).0 _
        (one graph (persists node id result valid))
        (λ _ _. elim (Bool-cases (is_pending_result result)) [
          | inl e ↦ rw e here
          | inr e ↦ rw e (
              continues graph (honor_barrier_after_result now kept).0 _ (one graph (honors now))
                (λ _ _. check_reach node now (honor_barrier_after_result now kept).1))
        ])

  contained_reach :
      (node : Node) (id : AttemptId) (now : ℕ) (result : Option Result) (r : Run)
      → Valid result
      → Leads graph r (container_result graph node id now result r).1
  unfolding container_result
  contained_reach node id now none r valid = here
  contained_reach node id now (some result) r valid =
      continues graph (persist_result node id result r).0 _
        (one graph (persists node id result valid))
        (λ _ _. settle_reach node.node_id now (persist_result node id result r).1)

  module _ (w : World) (sound : Sound w)
      (executes : (n : Node) (id : AttemptId) (r : Run) → Leads graph r (w.execute n id r).1)
      (queries : (q : Query) (r : Run) → Leads graph r (w.query q r).1) where
    query_reach :
        (node : Node) (q : Option Query) (id : Except AttemptId) (now : ℕ) (r : Run)
        → Leads graph r (continue_query w graph node q id now r).1
    unfolding continue_query
    query_reach node (some q) (ok id) now r =
        let s = (w.query q r).1 in
        continues graph (w.query q r).0 _ (queries q r) (λ v e.
          continues graph (persist_result node id (verifier v) s).0 _
            (one graph (persists node id (verifier v) (sound.answers q r v e)))
            (λ _ _. answer_reach node.node_id v now (persist_result node id (verifier v) s).1))
    query_reach node none id now r = one graph (ends_uncertain node.node_id now)
    query_reach node (some q) (raise e) now r = one graph (ends_uncertain node.node_id now)

    container_reach :
        (node : Node) (now : ℕ) (r : Run) → Leads graph r (resume_container w graph node now r).1
    unfolding resume_container
    container_reach node now r =
        let b = boundary w now in
        continues graph (latest_attempt_id node.node_id r) _ here (λ id _.
          continues graph (step b node now r).0 _
            (step_reach graph b (boundary_reach graph w executes queries now) queries node now r)
            (λ result e.
              contained_reach node id now result (step b node now r).1
                (step-Valid b node now r result e)))

    resume_reach :
        (node : Node) (now : ℕ) (r : Run) → Leads graph r (resume_row w graph node now r).1
    unfolding resume_row continue_external
    resume_reach node now r = elim (Bool-cases (has_branches node.node_type)) [
      | inl e ↦ rw e (container_reach node now r)
      | inr e ↦ rw e (query_reach node _ (latest_attempt_id node.node_id r) now r)
    ]

    invoked_reach :
        (node : Node) (now : ℕ) (id : Except AttemptId) (r : Run)
        → Leads graph r (invoke_turn w graph node now id r).1
    unfolding invoke_turn invoke
    invoked_reach node now (ok id) r =
        continues graph (invoke w now node id r).0 _
          (invoke_reach graph w executes queries now node id r)
          (λ result e.
            result_reach node id now result (invoke w now node id r).1
              (invoke_with-Valid w sound (boundary w now) now node id r result e))
    invoked_reach node now (raise exhausted_error) r = exhausted_reach now r
    invoked_reach node now (raise (value_error text)) r = here
    invoked_reach node now (raise _) r = here

    start_reach :
        (node : Node) (now : ℕ) (r : Run) → Leads graph r (start_turn w graph node now r).1
    unfolding start_turn
    start_reach node now r =
        let (id, after) = start_attempt node now r in
        Reach-trans (one graph (starts node now)) (invoked_reach node now id after)

    row_reach : (row : NodeRow) (now : ℕ) (r : Run) → Leads graph r (row_turn w graph row now r).1
    unfolding row_turn stepped_after
    row_reach row now r = continues graph (graph_node graph row.node_id) _ here (λ node _.
        elim (Bool-cases (is_running_row row.status)) [
          | inl e ↦ rw e (
              continues graph (resume_row w graph node now r).0 _ (resume_reach node now r)
                (λ _ _. here))
          | inr e ↦ rw e (start_reach node now r)
        ])

    next_reach :
        (row : Option NodeRow) (now : ℕ) (r : Run) → Leads graph r (next_turn w graph row now r).1
    unfolding next_turn
    next_reach none now r = unresolved_reach (unresolved_result_row r) now r
    next_reach (some row) now r = row_reach row now r

    budget_reach :
        (now : ℕ) (reached : Bool) (r : Run) → Leads graph r (budget_turn w graph now reached r).1
    unfolding budget_turn
    budget_reach now true r = exhausted_reach now r
    budget_reach now false r = next_reach (next_node_row r) now r

    open_reach : (now : ℕ) (r : Run) → Leads graph r (open_turn w graph now r).1
    unfolding open_turn
    open_reach now r = elim (Bool-cases (is_interrupt r.barrier)) [
      | inl e ↦ rw e (
          Reach-trans (one graph (cancels_branches "interrupt" true)) (
            finish_reach TerminalStatus.interrupted human_interrupted RunStatus.interrupted now
              (cancel_incomplete "interrupt" r) refl))
      | inr e ↦ rw e (
          continues graph (budget_limit_reached none false false now r) _ here
            (λ reached _. budget_reach now reached r))
    ]

    status_reach :
        (status : RunStatus) (now : ℕ) (r : Run)
        → r.status ≡ status
        → Leads graph r (status_turn w graph now status r).1
    unfolding status_turn
    status_reach RunStatus.pause_requested now r e =
        continues graph (pause_at_safe_point r).0 _ (one graph (pauses e)) (λ _ _. here)
    status_reach RunStatus.running now r e = open_reach now r
    status_reach RunStatus.draft now r e = open_reach now r
    status_reach RunStatus.awaiting_confirmation now r e = open_reach now r
    status_reach RunStatus.quiescing now r e = open_reach now r
    status_reach RunStatus.delivery_ready now r e = open_reach now r
    status_reach _ now r e = here

    pub turn_reach : (now : ℕ) (r : Run) → Leads graph r (turn w graph now r).1
    unfolding turn
    turn_reach now r = status_reach r.status now r refl

    after_reach :
        (t : Turn) (counted uncounted : Exec (Option RunStatus)) (r : Run)
        → Leads graph r (counted r).1
        → Leads graph r (uncounted r).1
        → Leads graph r (after_turn t counted uncounted r).1
    unfolding after_turn
    after_reach (returns status) counted uncounted r h k = here
    after_reach stepped counted uncounted r h k = h
    after_reach continued counted uncounted r h k = k

    pub run_reach :
        (steps : Option ℕ) (times : List ℕ) (r : Run) → Leads graph r (run w graph steps times r).1
    unfolding run
    run_reach steps [] r = here
    run_reach steps (now ∷ later) r = elim (Bool-cases (steps_left steps)) [
      | inl e ↦ rw e (
          continues graph (turn w graph now r).0 _ (turn_reach now r) (λ t _.
            after_reach t _ _ (turn w graph now r).1
              (run_reach (spend_step steps) later (turn w graph now r).1)
              (run_reach steps later (turn w graph now r).1)))
      | inr e ↦ rw e here
    ]

-- If the executors and the verifiers return validated results, and other threads make calls of the
-- runtime's methods only while an executor or a verifier works, then _run leaves a run that has the
-- invariant, if it began with one, whether it returns, raises or is still at work: its barrier, its
-- terminal reason and its error are those that its status has, the executor calls and the repairs
-- stay within the budget, and each kept result has a verdict that a final report admits.
pub run-Inv :
    (w : World) (graph : ExecutionGraph) (steps : Option ℕ) (times : List ℕ) (r : Run)
    → Sound w
    → ((n : Node) (id : AttemptId) (s : Run) → Reach graph s (w.execute n id s).1)
    → ((q : Query) (s : Run) → Reach graph s (w.query q s).1)
    → Inv r
    → Inv (run w graph steps times r).1
run-Inv w graph steps times r sound executes queries h =
    Reach-Inv h (run_reach graph w sound executes queries steps times r)
