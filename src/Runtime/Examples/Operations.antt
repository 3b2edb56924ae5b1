-- ===== src/Runtime/Examples/Operations.antt =====
-- Routing, costs, control, joins and validation on the example run.
use graph_engineering.Prelude.{
  ℕ, String, true, false, Option, none, some, List, [], ◌∷◌, ◌++◌, any, find_first, coalesce, ◌+◌,
  ◌≤◌, ◌≡◌, ◌≢◌, ◌↔◌, ◌⊎◌, inl, inr, eq_iff, ◌==◌, refl, arith, Checked, Exception, ok, raise,
  value_error, distinct, elem, map, select, All,
}
use graph_engineering.Models.Graph.{validate_static_topology, check_edges, check_joins, Edge}
use graph_engineering.Models.Reports.{RunStatus}
use graph_engineering.Runtime.Rows.{NodeStatus, BudgetRow, Barrier}
use graph_engineering.Runtime.State.{Run}
use graph_engineering.Runtime.Creation.{new_run}
use graph_engineering.Runtime.Invariant.{settled}
use graph_engineering.Models.Results.{
  ParallelResult, validated, failure_semantics_are_explicit, strictly_sorted,
}
use graph_engineering.Models.Control.{
  ControlOutcome, StateChangeControlIntent, resume, interrupt, query, state_change,
}
use graph_engineering.Runtime.Queries.{find_node, graph_node, traversals}
use graph_engineering.Models.Reports.{budget_exhausted}
use graph_engineering.Runtime.Routes.{route_result}
use graph_engineering.Runtime.Following.{
  Routable, OutOfRepairs, route_result_follows, route_result_exhausted,
}
use graph_engineering.Models.Topology.{Has, Joins, JoinsParallel, validate_static_topology_lem}
use graph_engineering.Runtime.Costs.{
  reserve_cost, reserve_and_flush, check_reservation, reserve_body, reserve_found, reserve_new,
  node_admits,
}
use graph_engineering.Runtime.Conditions.{select_edge, eligible, condition_matches, status_text}
use graph_engineering.Runtime.Joins.{join_results}
use graph_engineering.Runtime.Control.{
  control, cancel_external_handles, change_state, transition, apply_transition, record_intent,
}
use graph_engineering.Runtime.Verdicts.{validated-settled}
use graph_engineering.Runtime.Routing.{CanFollow, select_edge_first, select_edge-none}
use graph_engineering.Runtime.Reservations.{
  reserve_cost_again, reserve_cost_within, reserve_cost_refuses,
}
use graph_engineering.Runtime.Joining.{Attained, Below, join_results_joins}
use graph_engineering.Runtime.Controls.{
  Allowed, Controlled, HasBudget, Unused, Used, queried, control_changes, control_query_writes,
}
use graph_engineering.Runtime.Finish.{pause_at_safe_point}
use graph_engineering.Runtime.Branches.{cancel_branches}
use graph_engineering.Runtime.Races.{interrupt_lost}
use graph_engineering.Runtime.Examples.{
  edges, graph, created, charged, no_verifier, interruption, interrupted, question, left, right,
  first_edge, succeeds, fails, done_row, check, failed_row, back_edge, spent_run, money, spent,
}

reserved : reserve_cost graph "q" 3 none created ≡ (ok true, charged)
unfolding new_run reserve_cost reserve_body reserve_found reserve_new node_admits check_reservation
    find_first
reserved = refl

reserve_cost_again_example : reserve_cost graph "q" 3 none charged ≡ (ok true, charged)
reserve_cost_again_example = reserve_cost_again graph "q" 3 none created charged reserved

reserve_cost_within_example :
    (b : BudgetRow) × (limit : ℕ) × (created.status ≡ RunStatus.running)
    × (created.barrier ≡ none)
    × (created.budget ≡ some b)
    × (b.max_cost_units ≡ some limit)
    × (charged.budget ≡ some (record b { cost_units = some (coalesce b.cost_units 0 + 3) }))
    × (coalesce b.cost_units 0 + 3 ≤ limit)
unfolding new_run find_first
reserve_cost_within_example = reserve_cost_within graph "q" 3 none created charged refl reserved

abbrev full_disk : Checked
full_disk = raise (value_error "no space left on device")

unanswered : (reserve_and_flush graph "q" 3 none full_disk created).0 ≢ ok true
unfolding new_run reserve_and_flush reserve_cost reserve_body reserve_found reserve_new node_admits
    check_reservation find_first
unanswered e = cc

reserve_cost_refuses_example :
    let s = (reserve_and_flush graph "q" 3 none full_disk created).1 in
    (s ≡ created)
    ⊎ (((e : Exception) × (full_disk ≡ raise e))
        × (reserve_and_flush graph "q" 3 none (ok tt) s ≡ (ok true, s)))
reserve_cost_refuses_example =
    reserve_cost_refuses graph "q" 3 none full_disk (ok tt) created unanswered

is_interrupted :
    control no_verifier (state_change interruption) created
    ≡ (ok ControlOutcome.applied, interrupted)
unfolding new_run control change_state transition apply_transition record_intent any
is_interrupted = refl

control_changes_example :
    Controlled created interrupted
    × (((ControlOutcome.applied ≡ ControlOutcome.applied)
          × Allowed interrupt created.status interrupted.status interrupted.barrier)
        ⊎ ((ControlOutcome.applied ≡ ControlOutcome.rejected)
            × ((after : RunStatus) (barrier : Option Barrier)
                → ¬ (Allowed interrupt created.status after barrier))
            × (interrupted.status ≡ created.status)
            × (interrupted.barrier ≡ created.barrier)))
control_changes_example =
    control_changes no_verifier interruption created interrupted ControlOutcome.applied
      is_interrupted

control_query_writes_example :
    let s = (control no_verifier (query question) created).1 in
    (HasBudget created × Unused created "i" × (s ≡ queried question created))
    ⊎ (((created.budget ≡ none) ⊎ Used created "i") × (s ≡ created))
control_query_writes_example = control_query_writes no_verifier question created

join_results_joins_example :
    (p : ParallelResult) × (join_results "both" (left ∷ right ∷ []) ≡ ok (some p))
    × (p.branches ≡ left ∷ right ∷ [])
    × Attained p.status (left ∷ right ∷ [])
    × Below p.status (left ∷ right ∷ [])
unfolding failure_semantics_are_explicit strictly_sorted
join_results_joins_example = join_results_joins "both" left (right ∷ []) (refl, (refl, (refl, tt)))

select_edge_first_example :
    (before : List Edge) × (after : List Edge) × (edges ≡ before ++ first_edge ∷ after)
    × CanFollow [] "build" succeeds 1 first_edge
    × All (λ x. ¬ (CanFollow [] "build" succeeds 1 x)) before
unfolding select_edge find_first eligible condition_matches
select_edge_first_example = select_edge_first edges [] "build" succeeds 1 first_edge refl

select_edge-none_example :
    (select_edge edges [] "build" fails 1 ≡ none)
    ↔ All (λ x. ¬ (CanFollow [] "build" fails 1 x)) edges
select_edge-none_example = select_edge-none edges [] "build" fails 1

validated-settled_example : settled (some fails) ≡ true
unfolding validated
validated-settled_example = validated-settled fails refl refl

validate_static_topology_lem_example :
    (distinct (map (λ n. n.node_id) graph.nodes) ≡ true)
    × Has graph.nodes "build"
    × All (Joins graph.nodes) edges
    × All (JoinsParallel graph) graph.nodes
unfolding validate_static_topology check_edges check_joins distinct elem
validate_static_topology_lem_example = validate_static_topology_lem graph refl

abbrev repaired : Run
repaired = record created { nodes = failed_row ∷ done_row ∷ [] }

repair_routable : Routable graph "check" 2 repaired failed_row fails back_edge check
unfolding new_run find_first select_edge eligible condition_matches graph_node traversals
repair_routable = record {
  unbarred = refl;
  found = refl;
  has_result = refl;
  unresolved = refl;
  selected = refl;
  known = refl;
}

can_repair : ¬ (OutOfRepairs back_edge fails check failed_row repaired)
unfolding new_run status_text
can_repair (_, inl (b, has, spent)) = ground arith
can_repair (_, inr (own, has, spent)) = ground arith

apart : (a b : String) → (a == b) ≡ false → a ≢ b
apart a b h e = absurd (ground (arith, eq_iff a b))

route_result_follows_example :
    let (outcome, s) = route_result graph "check" 2 repaired in
    (outcome ≡ ok tt)
    × (s.current_node_id ≡ some "build")
    × (find_node "build" s.nodes
        ≡ some
            (record done_row { status = NodeStatus.ready; result = none; route_resolved = false }))
    × (find_node "check" s.nodes
        ≡ some (record failed_row { route_resolved = true; repair_iterations = 1 }))
    × (find_node "deploy" s.nodes ≡ find_node "deploy" repaired.nodes)
    × (s.budget ≡ some (record money { repair_iterations = 1 }))
    × (traversals "check" "build" s.edges ≡ traversals "check" "build" repaired.edges + 1)
    × (s.status ≡ repaired.status)
    × (s.attempts ≡ repaired.attempts)
    × (s.report ≡ repaired.report)
unfolding new_run status_text find_first
route_result_follows_example =
    route_result_follows graph "check" 2 repaired failed_row fails back_edge check money done_row
      "deploy" repair_routable can_repair refl refl (apart "build" "check" refl)
      (apart "deploy" "check" refl) (apart "deploy" "build" refl)

check_routable : Routable graph "check" 2 spent_run failed_row fails back_edge check
unfolding new_run find_first select_edge eligible condition_matches graph_node traversals
check_routable = record {
  unbarred = refl;
  found = refl;
  has_result = refl;
  unresolved = refl;
  selected = refl;
  known = refl;
}

route_result_exhausted_example :
    let s = (route_result graph "check" 2 spent_run).1 in
    (s.status ≡ RunStatus.failed) × (s.terminal_reason ≡ some budget_exhausted) × (s.barrier ≡ none)
unfolding new_run status_text
route_result_exhausted_example =
    route_result_exhausted graph "check" 2 spent_run failed_row fails back_edge check check_routable
      (refl, inl (spent, refl, omega arith)) refl

-- The run of a requested pause, with an interrupt and a resume after the pause.
abbrev pausing : Run
pausing = record created { status = RunStatus.pause_requested; barrier = some Barrier.pause }

abbrev caught_late : Run
caught_late = (control no_verifier (state_change interruption) pausing).1

abbrev resumption : StateChangeControlIntent
resumption = record interruption { intent_id = "j"; action = resume }

abbrev resumed : Run
resumed = (control no_verifier (state_change resumption) (pause_at_safe_point caught_late).1).1

interrupt_lost_example :
    let u = (pause_at_safe_point caught_late).1 in
    (u.status ≡ RunStatus.paused)
    × (u.barrier ≡ some Barrier.interrupt)
    × (resumed.status ≡ RunStatus.running)
    × (resumed.barrier ≡ none)
unfolding new_run control change_state transition apply_transition record_intent any
    pause_at_safe_point cancel_external_handles select cancel_branches
interrupt_lost_example =
    interrupt_lost no_verifier no_verifier interruption resumption pausing caught_late resumed refl
      refl refl refl
