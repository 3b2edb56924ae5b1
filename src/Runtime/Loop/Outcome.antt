-- ===== src/Runtime/Loop/Outcome.antt =====
-- What _run of engine.py returns.
use graph_engineering.Prelude.{
  ℕ, Bool, true, false, ◌||◌, Option, none, some, List, [], ◌∷◌, ◌≡◌, refl, ap, ◌∙◌, subst, inl,
  inr, arith, Except, Exception, value_error, ok, raise, budget_exhausted as exhausted_error,
  Bool-cases,
}
use graph_engineering.Models.Graph.{Node, ExecutionGraph}
use graph_engineering.Models.Results.{Result}
use graph_engineering.Models.Reports.{
  RunStatus, TerminalStatus, TerminalReason, human_interrupted, budget_exhausted, is_terminal,
  to_run_status,
}
use graph_engineering.Runtime.Rows.{NodeRow, AttemptId}
use graph_engineering.Runtime.State.{Run, Exec, continue}
use graph_engineering.Runtime.Queries.{graph_node}
use graph_engineering.Runtime.Limits.{budget_limit_reached}
use graph_engineering.Runtime.Finish.{
  finish, is_paused, pause_at_safe_point, honor_barrier_after_result,
}
use graph_engineering.Runtime.Attempts.{begin_attempt, start_attempt, persist_result}
use graph_engineering.Runtime.Routes.{route_result}
use graph_engineering.Runtime.Branches.{cancel_incomplete}
use graph_engineering.Runtime.Boundaries.{World, invoke}
use graph_engineering.Runtime.Transactions.{transaction_raises}
use graph_engineering.Runtime.Asides.{cancel_branches-Aside}
use graph_engineering.Runtime.Cancelling.{finish_open}
use graph_engineering.Runtime.Steps.Ended.{terminal_status}
use graph_engineering.Runtime.Loop.{
  is_running_row, next_node_row, unresolved_result_row, Turn, returns, stepped, continued,
  stepped_after, finish_turn, exhausted_turn, resume_row, route_turn, check_turn, is_pending_result,
  result_turn, invoke_turn, start_turn, row_turn, unresolved_turn, next_turn, budget_turn,
  is_interrupt, open_turn, status_turn, turn, after_turn, run,
}

-- A run that _run leaves alone: it is paused or it has ended.
abbrev is_return : Turn → Bool
is_return (returns s) = true
is_return _ = false

abbrev pub rests : RunStatus → Bool
rests s = is_paused s || is_terminal s

rests_ended : (t : TerminalStatus) → rests (to_run_status t) ≡ true
rests_ended t = ground (arith, terminal_status t)

-- A status that a turn returns is the one that the run has, which rests.
abbrev Said : Except Turn × Run → Type 0
Said x = (s : RunStatus) → x.0 ≡ ok (returns s) → (x.1.status ≡ s) × (rests s ≡ true)

Said-after :
    {A : Type 0} (result : Except A) (r : Run) (f : A → Exec Turn)
    → ((a : A) → result ≡ ok a → Said (f a r))
    → Said (continue result r f)
Said-after (ok a) r f h s e = h a refl s e
Said-after (raise x) r f h s e = cc

says : (r : Run) (s : RunStatus) → r.status ≡ s → rests s ≡ true → Said (ok (returns s), r)
says r s h k t e = let same : s ≡ t = ground arith in (h ∙ same, subst (λ x. rests x ≡ true) same k)

nothing : (r : Run) (t : Turn) → is_return t ≡ false → Said (ok t, r)
nothing r stepped h s e = cc
nothing r continued h s e = cc
nothing r (returns x) h s e = cc

finish-Said :
    (status : TerminalStatus) (reason : TerminalReason) (now : ℕ) (r : Run)
    → is_terminal r.status ≡ false
    → Said (finish_turn status reason (to_run_status status) now r)
unfolding finish_turn
finish-Said status reason now r h =
    let (left, _, _, _) = finish_open status reason none now r h in
    Said-after (finish status reason none now r).0 (finish status reason none now r).1 _ (λ u _.
      says (finish status reason none now r).1 (to_run_status status) left (rests_ended status))

exhausted-Said : (now : ℕ) (r : Run) → is_terminal r.status ≡ false → Said (exhausted_turn now r)
unfolding exhausted_turn
exhausted-Said now r h = finish-Said TerminalStatus.failed budget_exhausted now r h

stepped-Said : (m : Exec Unit) (r : Run) → Said (stepped_after m r)
unfolding stepped_after
stepped-Said m r = Said-after (m r).0 (m r).1 _ (λ u _. nothing (m r).1 stepped refl)

module _ (graph : ExecutionGraph) where
  unresolved-Said :
      (row : Option NodeRow) (now : ℕ) (r : Run) → Said (unresolved_turn graph row now r)
  unfolding unresolved_turn
  unresolved-Said none now r = λ s e. cc
  unresolved-Said (some row) now r =
      Said-after (route_result graph row.node_id now r).0 (route_result graph row.node_id now r).1 _
        (λ u _. nothing (route_result graph row.node_id now r).1 continued refl)

  route-Said :
      (node : Node) (now : ℕ) (reached : Bool) (r : Run)
      → is_terminal r.status ≡ false
      → Said (route_turn graph node now reached r)
  unfolding route_turn
  route-Said node now true r h = exhausted-Said now r h
  route-Said node now false r h = stepped-Said (route_result graph node.node_id now) r

  check-Said : (node : Node) (now : ℕ) (r : Run) → Said (check_turn graph node now r)
  unfolding check_turn
  check-Said node now r = elim (Bool-cases (rests r.status)) [
    | inl e ↦ rw e (says r r.status refl e)
    | inr e ↦ rw e (
        Said-after (budget_limit_reached (some node) false false now r) r _
          (λ reached _. route-Said node now reached r (ground arith)))
  ]

  result-Said :
      (node : Node) (id : AttemptId) (now : ℕ) (result : Option Result) (r : Run)
      → Said (result_turn graph node id now result r)
  unfolding result_turn
  result-Said node id now none r = nothing r stepped refl
  result-Said node id now (some result) r =
      let kept = (persist_result node id result r).1 in
      Said-after (persist_result node id result r).0 kept _ (λ u _.
        elim (Bool-cases (is_pending_result result)) [
          | inl e ↦ rw e (nothing kept stepped refl)
          | inr e ↦ rw e (
              Said-after (honor_barrier_after_result now kept).0
                (honor_barrier_after_result now kept).1 _
                (λ v _. check-Said node now (honor_barrier_after_result now kept).1))
        ])

  module _ (w : World) where
    invoked-Said :
        (node : Node) (now : ℕ) (id : Except AttemptId) (r : Run)
        → ((e : Exception) → id ≡ raise e → is_terminal r.status ≡ false)
        → Said (invoke_turn w graph node now id r)
    unfolding invoke_turn
    invoked-Said node now (ok id) r h =
        Said-after (invoke w now node id r).0 (invoke w now node id r).1 _
          (λ result _. result-Said node id now result (invoke w now node id r).1)
    invoked-Said node now (raise exhausted_error) r h =
        exhausted-Said now r (h exhausted_error refl)
    invoked-Said node now (raise (value_error text)) r h = λ s e. cc
    invoked-Said node now (raise _) r h = λ s e. cc

    start-Said :
        (node : Node) (now : ℕ) (r : Run)
        → is_terminal r.status ≡ false
        → Said (start_turn w graph node now r)
    unfolding start_turn start_attempt
    start-Said node now r h =
        let (id, after) = start_attempt node now r in
        invoked-Said node now id after
          (λ e raised. rw (transaction_raises (begin_attempt node now) r raised) h)

    row-Said :
        (row : NodeRow) (now : ℕ) (r : Run)
        → is_terminal r.status ≡ false
        → Said (row_turn w graph row now r)
    unfolding row_turn
    row-Said row now r h = Said-after (graph_node graph row.node_id) r _ (λ node _.
        elim (Bool-cases (is_running_row row.status)) [
          | inl e ↦ rw e (stepped-Said (resume_row w graph node now) r)
          | inr e ↦ rw e (start-Said node now r h)
        ])

    next-Said :
        (row : Option NodeRow) (now : ℕ) (r : Run)
        → is_terminal r.status ≡ false
        → Said (next_turn w graph row now r)
    unfolding next_turn
    next-Said none now r h = unresolved-Said (unresolved_result_row r) now r
    next-Said (some row) now r h = row-Said row now r h

    budget-Said :
        (now : ℕ) (reached : Bool) (r : Run)
        → is_terminal r.status ≡ false
        → Said (budget_turn w graph now reached r)
    unfolding budget_turn
    budget-Said now true r h = exhausted-Said now r h
    budget-Said now false r h = next-Said (next_node_row r) now r h

    open-Said : (now : ℕ) (r : Run) → is_terminal r.status ≡ false → Said (open_turn w graph now r)
    unfolding open_turn
    open-Said now r h =
        let aside = ap (λ x. x.status) (cancel_branches-Aside "interrupt" true r) in
        elim (Bool-cases (is_interrupt r.barrier)) [
          | inl e ↦ rw e (
              finish-Said TerminalStatus.interrupted human_interrupted now
                (cancel_incomplete "interrupt" r) (rw aside h))
          | inr e ↦ rw e (
              Said-after (budget_limit_reached none false false now r) r _
                (λ reached _. budget-Said now reached r h))
        ]

    pause_said :
        (r : Run)
        → r.status ≡ RunStatus.pause_requested
        → (pause_at_safe_point r).1.status ≡ RunStatus.paused
    unfolding pause_at_safe_point
    pause_said r e = simp e refl

    status-Said :
        (status : RunStatus) (now : ℕ) (r : Run)
        → r.status ≡ status
        → Said (status_turn w graph now status r)
    unfolding status_turn
    status-Said RunStatus.pause_requested now r e =
        Said-after (pause_at_safe_point r).0 (pause_at_safe_point r).1 _
          (λ u _. says (pause_at_safe_point r).1 RunStatus.paused (pause_said r e) refl)
    status-Said RunStatus.running now r e = open-Said now r (rw e refl)
    status-Said RunStatus.draft now r e = open-Said now r (rw e refl)
    status-Said RunStatus.awaiting_confirmation now r e = open-Said now r (rw e refl)
    status-Said RunStatus.quiescing now r e = open-Said now r (rw e refl)
    status-Said RunStatus.delivery_ready now r e = open-Said now r (rw e refl)
    status-Said RunStatus.succeeded now r e = says r RunStatus.succeeded e refl
    status-Said RunStatus.failed now r e = says r RunStatus.failed e refl
    status-Said RunStatus.error now r e = says r RunStatus.error e refl
    status-Said RunStatus.interrupted now r e = says r RunStatus.interrupted e refl
    status-Said RunStatus.cancelled now r e = says r RunStatus.cancelled e refl
    status-Said RunStatus.rejected now r e = says r RunStatus.rejected e refl
    status-Said RunStatus.paused now r e = says r RunStatus.paused e refl

    turn-Said : (now : ℕ) (r : Run) → Said (turn w graph now r)
    unfolding turn
    turn-Said now r = status-Said r.status now r refl

    abbrev Reported : Except (Option RunStatus) × Run → Type 0
    Reported x = (s : RunStatus) → x.0 ≡ ok (some s) → (x.1.status ≡ s) × (rests s ≡ true)

    after-Said :
        (t : Except Turn) (counted uncounted : Exec (Option RunStatus)) (r : Run)
        → Said (t, r)
        → Reported (counted r)
        → Reported (uncounted r)
        → Reported (continue t r (λ x. after_turn x counted uncounted))
    unfolding after_turn
    after-Said (raise x) counted uncounted r h k l = λ s e. cc
    after-Said (ok stepped) counted uncounted r h k l = k
    after-Said (ok continued) counted uncounted r h k l = l
    after-Said (ok (returns status)) counted uncounted r h k l = λ s e. h s (ground arith)

-- If _run without a limit on its steps returns a status, the run that it leaves has that status, and
-- it is paused or has ended.
pub run_returns :
    (w : World) (graph : ExecutionGraph) (times : List ℕ) (r : Run) (s : RunStatus)
    → (run w graph none times r).0 ≡ ok (some s)
    → ((run w graph none times r).1.status ≡ s) × (rests s ≡ true)
unfolding run
run_returns w graph [] r s e = cc
run_returns w graph (now ∷ later) r s e =
    let (t, after) = turn w graph now r in
    after-Said graph w t (run w graph none later) (run w graph none later) after
      (turn-Said graph w now r) (run_returns w graph later after) (run_returns w graph later after)
      s e
