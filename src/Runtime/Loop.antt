-- ===== src/Runtime/Loop.antt =====
-- GraphRuntime._run and _continue_external of engine.py. Each turn of the loop has one reading of the
-- clock, and the loop ends with the list of the readings at the latest.
pub mod Answers
pub mod Progress
pub mod Turns
pub mod Outcome
use graph_engineering.Prelude.{
  ℕ, zero, suc, String, Bool, true, false, ◌&&◌, ◌||◌, not, Option, none, some, List, [], ◌∷◌,
  Except, ok, raise, Exception, runtime_invariant, budget_exhausted as exhausted_error, ◌>>=◌, ◌==◌,
  is_some, is_none, if◌then◌else◌, find_first, least, select, text_lt,
}
use graph_engineering.Models.Graph.{Node, NodeType, ExecutionGraph}
use graph_engineering.Models.Results.{
  Result, VerifierResult, VerifierStatus, executor, verifier, parallel, is_pending_status,
}
use graph_engineering.Models.Reports.{
  RunStatus, TerminalStatus, TerminalReason, human_interrupted, budget_exhausted, is_terminal,
}
use graph_engineering.Runtime.Rows.{NodeStatus, NodeRow, AttemptId, AttemptRow, Barrier, is_ready}
use graph_engineering.Runtime.State.{Run, Exec, ◌>>>=◌, continue, reads, done}
use graph_engineering.Runtime.Queries.{graph_node, is_running_status}
use graph_engineering.Runtime.Limits.{budget_limit_reached}
use graph_engineering.Runtime.Finish.{
  finish, finish_uncertain_external_effect, is_paused, pause_at_safe_point,
  honor_barrier_after_result,
}
use graph_engineering.Runtime.Attempts.{start_attempt, persist_result, latest_attempt_id}
use graph_engineering.Runtime.Routes.{route_result}
use graph_engineering.Runtime.Branches.{cancel_incomplete}
use graph_engineering.Runtime.Branches.Routes.{Query, handle_query}
use graph_engineering.Runtime.Branches.Pool.{step}
use graph_engineering.Runtime.Boundaries.{World, boundary, invoke}

abbrev pub is_running_row : NodeStatus → Bool
is_running_row NodeStatus.running = true
is_running_row _ = false

-- ORDER BY CASE status WHEN 'running' THEN 0 ELSE 1 END, node_id
unfoldable pub runs_before : NodeRow → NodeRow → Bool
runs_before a b =
    is_running_row a.status && not (is_running_row b.status)
    || (is_running_row a.status || not (is_running_row b.status)) && text_lt a.node_id b.node_id

-- _next_node_row
unfoldable pub next_node_row : Run → Option NodeRow
unfolding runs_before
next_node_row r =
    least runs_before (select (λ n. is_running_row n.status || is_ready n.status) r.nodes)

-- _unresolved_result_row
unfoldable pub unresolved_result_row : Run → Option NodeRow
unresolved_result_row r =
    least (λ a b. text_lt a.node_id b.node_id)
      (select (λ n. not n.route_resolved && is_some n.result) r.nodes)

-- What follows a result of an external verifier or of a container.
unfoldable pub route_if_running : ExecutionGraph → String → ℕ → Exec Unit
route_if_running graph node_id now r =
    if is_running_status r.status then route_result graph node_id now r else (ok tt, r)

unfoldable pub settle_result : ExecutionGraph → String → ℕ → Exec Unit
unfolding route_if_running
settle_result graph node_id now =
    honor_barrier_after_result now >>>= λ _. route_if_running graph node_id now

unfoldable pub settle_answer : ExecutionGraph → String → VerifierResult → ℕ → Exec Unit
unfolding settle_result
settle_answer graph node_id v now =
    if is_pending_status v.status then done else settle_result graph node_id now

unfoldable pub continue_query :
    World → ExecutionGraph → Node → Option Query → Except AttemptId → ℕ → Exec Unit
unfolding settle_answer
continue_query w graph node (some query) (ok id) now r =
    (w.query query >>>= λ v.
    persist_result node id (verifier v) >>>= λ _. settle_answer graph node.node_id v now)
      r
continue_query w graph node _ _ now r = finish_uncertain_external_effect node.node_id now r

-- _continue_external
unfoldable pub continue_external : World → ExecutionGraph → Node → ℕ → Exec Unit
unfolding continue_query
continue_external w graph node now r =
    continue_query w graph node
      (handle_query (find_first (λ h. h.node_id == node.node_id) r.handles))
      (latest_attempt_id node.node_id r) now r

-- How one turn of the loop ends: with a status to return, or with a step counted or not.
pub data Turn : Type 0 where
  returns : RunStatus → Turn
  stepped : Turn
  continued : Turn

unfoldable pub stepped_after : Exec Unit → Exec Turn
stepped_after m = m >>>= λ _ r. (ok stepped, r)

unfoldable pub finish_turn : TerminalStatus → TerminalReason → RunStatus → ℕ → Exec Turn
finish_turn status reason returned now =
    finish status reason none now >>>= λ _ r. (ok (returns returned), r)

unfoldable pub exhausted_turn : ℕ → Exec Turn
unfolding finish_turn
exhausted_turn now = finish_turn TerminalStatus.failed budget_exhausted RunStatus.failed now

-- A container whose row is running.
unfoldable pub container_result : ExecutionGraph → Node → AttemptId → ℕ → Option Result → Exec Unit
unfolding settle_result
container_result graph node id now none = done
container_result graph node id now (some result) =
    persist_result node id result >>>= λ _. settle_result graph node.node_id now

abbrev pub has_branches : NodeType → Bool
has_branches NodeType.parallel = true
has_branches NodeType.subgraph = true
has_branches _ = false

unfoldable pub resume_container : World → ExecutionGraph → Node → ℕ → Exec Unit
unfolding container_result boundary
resume_container w graph node now = reads (latest_attempt_id node.node_id) >>>= λ id.
    step (boundary w now) node now >>>= λ result. container_result graph node id now result

unfoldable pub resume_row : World → ExecutionGraph → Node → ℕ → Exec Unit
unfolding resume_container continue_external
resume_row w graph node now =
    if has_branches node.node_type
    then resume_container w graph node now
    else continue_external w graph node now

-- The budget test after a result, and the routing of it.
unfoldable pub route_turn : ExecutionGraph → Node → ℕ → Bool → Exec Turn
unfolding exhausted_turn stepped_after
route_turn graph node now true = exhausted_turn now
route_turn graph node now false = stepped_after (route_result graph node.node_id now)

-- The status after a result: a run that is paused or has ended is returned.
unfoldable pub check_turn : ExecutionGraph → Node → ℕ → Exec Turn
unfolding route_turn
check_turn graph node now r =
    if is_paused r.status || is_terminal r.status
    then (ok (returns r.status), r)
    else (reads (budget_limit_reached (some node) false false now) >>>= route_turn graph node now) r

abbrev pub is_pending_result : Result → Bool
is_pending_result (verifier v) = is_pending_status v.status
is_pending_result _ = false

unfoldable pub result_turn : ExecutionGraph → Node → AttemptId → ℕ → Option Result → Exec Turn
unfolding check_turn
result_turn graph node id now none r = (ok stepped, r)
result_turn graph node id now (some result) r =
    (persist_result node id result >>>= λ _ s.
    if is_pending_result result
    then (ok stepped, s)
    else (honor_barrier_after_result now >>>= λ _. check_turn graph node now) s)
      r

-- What follows _start_attempt.
unfoldable pub invoke_turn : World → ExecutionGraph → Node → ℕ → Except AttemptId → Exec Turn
unfolding result_turn exhausted_turn invoke
invoke_turn w graph node now (ok id) =
    invoke w now node id >>>= λ result. result_turn graph node id now result
invoke_turn w graph node now (raise exhausted_error) = exhausted_turn now
invoke_turn w graph node now (raise error) = λ r. (raise error, r)

unfoldable pub start_turn : World → ExecutionGraph → Node → ℕ → Exec Turn
unfolding invoke_turn
start_turn w graph node now r =
    let (id, after) = start_attempt node now r in invoke_turn w graph node now id after

unfoldable pub row_turn : World → ExecutionGraph → NodeRow → ℕ → Exec Turn
unfolding start_turn resume_row stepped_after
row_turn w graph row now = reads (λ r. graph_node graph row.node_id) >>>= λ node.
    if is_running_row row.status
    then stepped_after (resume_row w graph node now)
    else start_turn w graph node now

unfoldable pub unresolved_turn : ExecutionGraph → Option NodeRow → ℕ → Exec Turn
unresolved_turn graph none now r =
    (raise (runtime_invariant "running Run has no schedulable or unresolved node"), r)
unresolved_turn graph (some row) now r =
    (route_result graph row.node_id now >>>= λ _ s. (ok continued, s)) r

unfoldable pub next_turn : World → ExecutionGraph → Option NodeRow → ℕ → Exec Turn
unfolding row_turn unresolved_turn unresolved_result_row
next_turn w graph none now r = unresolved_turn graph (unresolved_result_row r) now r
next_turn w graph (some row) now r = row_turn w graph row now r

-- The turn of a run with the run's own budget tested.
unfoldable pub budget_turn : World → ExecutionGraph → ℕ → Bool → Exec Turn
unfolding exhausted_turn next_turn next_node_row
budget_turn w graph now true r = exhausted_turn now r
budget_turn w graph now false r = next_turn w graph (next_node_row r) now r

abbrev pub is_interrupt : Option Barrier → Bool
is_interrupt (some Barrier.interrupt) = true
is_interrupt _ = false

unfoldable pub open_turn : World → ExecutionGraph → ℕ → Exec Turn
unfolding budget_turn finish_turn
open_turn w graph now r =
    if is_interrupt r.barrier
    then finish_turn TerminalStatus.interrupted human_interrupted RunStatus.interrupted now
        (cancel_incomplete "interrupt" r)
    else (reads (budget_limit_reached none false false now) >>>= budget_turn w graph now) r

unfoldable pub status_turn : World → ExecutionGraph → ℕ → RunStatus → Exec Turn
unfolding open_turn
status_turn w graph now RunStatus.succeeded r = (ok (returns RunStatus.succeeded), r)
status_turn w graph now RunStatus.failed r = (ok (returns RunStatus.failed), r)
status_turn w graph now RunStatus.error r = (ok (returns RunStatus.error), r)
status_turn w graph now RunStatus.interrupted r = (ok (returns RunStatus.interrupted), r)
status_turn w graph now RunStatus.cancelled r = (ok (returns RunStatus.cancelled), r)
status_turn w graph now RunStatus.rejected r = (ok (returns RunStatus.rejected), r)
status_turn w graph now RunStatus.paused r = (ok (returns RunStatus.paused), r)
status_turn w graph now RunStatus.pause_requested r =
    (pause_at_safe_point >>>= λ _ s. (ok (returns RunStatus.paused), s)) r
status_turn w graph now _ r = open_turn w graph now r

unfoldable pub turn : World → ExecutionGraph → ℕ → Exec Turn
unfolding status_turn
turn w graph now r = status_turn w graph now r.status r

abbrev pub spend_step : Option ℕ → Option ℕ
spend_step (some (suc n)) = some n
spend_step steps = steps

-- steps < max_steps
abbrev pub steps_left : Option ℕ → Bool
steps_left (some zero) = false
steps_left _ = true

-- A turn that is a step counts for max_steps.
unfoldable pub after_turn :
    Turn → Exec (Option RunStatus) → Exec (Option RunStatus) → Exec (Option RunStatus)
after_turn (returns status) counted uncounted r = (ok (some status), r)
after_turn stepped counted uncounted r = counted r
after_turn continued counted uncounted r = uncounted r

-- _run, with the steps that are left of max_steps; no status is returned when the readings of the
-- clock are used up.
unfoldable pub run : World → ExecutionGraph → Option ℕ → List ℕ → Exec (Option RunStatus)
unfolding turn after_turn
run w graph steps [] r = (ok none, r)
run w graph steps (now ∷ later) r =
    if steps_left steps
    then continue (turn w graph now r).0 (turn w graph now r).1
        (λ t. after_turn t (run w graph (spend_step steps) later) (run w graph steps later))
    else (ok (some r.status), r)
