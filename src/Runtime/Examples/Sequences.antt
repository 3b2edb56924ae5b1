-- ===== src/Runtime/Examples/Sequences.antt =====
-- Creation, attempts, ends and recovery on the example run.
use graph_engineering.Prelude.{value_error, ◌⊎◌, Checked, map, false}
use graph_engineering.Runtime.Rows.{NodeStatus, is_ready, is_running}
use graph_engineering.Runtime.Lineage.{run_exists}
use graph_engineering.Runtime.Beginning.{create_run_starts}
use graph_engineering.Prelude.{
  String, true, false, Option, none, some, [], ◌∷◌, ◌++◌, any, find_first, if◌then◌else◌, leb, ◌+◌,
  ◌&&◌, ◌≡◌, ◌≢◌, refl, arith, ok, raise, inr, ◌==◌, eq_iff, recovery_error, All,
}
use graph_engineering.Models.Graph.{NodeType}
use graph_engineering.Models.Reports.{RunStatus, TerminalStatus}
use graph_engineering.Runtime.Rows.{NodeRow, BudgetRow, is_ready}
use graph_engineering.Runtime.Creation.{create_run, new_run, saved_nodes, initial_rows}
use graph_engineering.Runtime.Lineage.{Source, validate_run_lineage}
use graph_engineering.Runtime.Branches.{initialize}
use graph_engineering.Runtime.Attempts.{start_and_flush, new_attempt, start_attempt}
use graph_engineering.Runtime.Invariant.{Inv, settled}
use graph_engineering.Models.Reports.{
  human_cancelled, acceptance_failed, execution_error, is_terminal,
}
use graph_engineering.Runtime.Queries.{find_node, find_node}
use graph_engineering.Runtime.Limits.{node_budget_limit_reached}
use graph_engineering.Runtime.Finish.{finish, terminate}
use graph_engineering.Runtime.Attempts.{start_row, new_attempt, counts_call, begin_attempt}
use graph_engineering.Runtime.Recovery.{recover}
use graph_engineering.Runtime.Recovering.{recover_refuses}
use graph_engineering.Runtime.Reports.{final_report, finish_reports, crash_leaves_no_report}
use graph_engineering.Runtime.Starts.{start_attempt_returns, start_attempt_raises}
use graph_engineering.Runtime.Steps.Absorbing.{Reach-IsEnded}
use graph_engineering.Runtime.Steps.Ended.{IsEnded}
use graph_engineering.Runtime.Steps.{here, next, starts, create_run-Reach-Inv}
use graph_engineering.Runtime.Examples.{
  plain, graph, budget, alone, empty, refs, hash, created, first, build, money, gone, first_attempt,
}

pub first_created : create_run refs hash "r" graph "k" budget alone none 0 empty ≡ ok first
unfolding create_run validate_run_lineage initialize any
first_created = refl

pub no_source :
    (source : Option Source)
    → validate_run_lineage refs empty.runs alone (hash graph) "k" none ≡ ok source
    → All (λ (n : NodeRow). settled n.result ≡ true) (saved_nodes source)
unfolding validate_run_lineage saved_nodes
no_source none e = tt
no_source (some x) e = absurd (ground arith)

create_run-Reach-Inv_example : Inv (start_attempt (plain "build" NodeType.agent) 1 first).1
create_run-Reach-Inv_example =
    create_run-Reach-Inv refs hash "r" graph "k" budget alone none 0 empty first
      (start_attempt (plain "build" NodeType.agent) 1 first).1 no_source first_created
      (next here (starts (plain "build" NodeType.agent) 1))

Reach-IsEnded_example :
    IsEnded TerminalStatus.cancelled human_cancelled none (start_attempt build 1 gone).1
unfolding new_run
Reach-IsEnded_example =
    Reach-IsEnded TerminalStatus.cancelled human_cancelled none graph gone
      (start_attempt build 1 gone).1
      (record { has_status = refl; no_barrier = refl; has_reason = refl; has_error = refl })
      (next here (starts build 1))

finish_reports_example :
    let (result, s) = finish TerminalStatus.failed acceptance_failed none 5 created in
    let report = final_report TerminalStatus.failed acceptance_failed none 5 created money in
    (result ≡ ok tt)
    × (s.status ≡ RunStatus.failed)
    × (s.barrier ≡ none)
    × (s.terminal_reason ≡ some acceptance_failed)
    × (s.error ≡ none)
    × (s.report ≡ some report)
    × (report.terminal_status ≡ TerminalStatus.failed)
    × (report.terminal_reason ≡ acceptance_failed)
    × (report.error ≡ none)
    × (report.budget_usage.executor_calls ≡ 0)
    × (report.budget_usage.repair_iterations ≡ 0)
    × (report.budget_usage.cost_units ≡ some 0)
unfolding new_run
finish_reports_example =
    finish_reports TerminalStatus.failed acceptance_failed none 5 created money refl refl refl

crash_leaves_no_report_example :
    ((finish TerminalStatus.error execution_error none 7
        (terminate TerminalStatus.failed acceptance_failed none created)).1.report
      ≡ none)
    × ((recover "g" "k" 7 (terminate TerminalStatus.failed acceptance_failed none created)).1.report
        ≡ none)
    × (is_terminal (terminate TerminalStatus.failed acceptance_failed none created).status ≡ true)
unfolding new_run
crash_leaves_no_report_example =
    crash_leaves_no_report TerminalStatus.failed TerminalStatus.error acceptance_failed
      execution_error none none 7 "g" "k" created

start_attempt_returns_example :
    let s = (start_attempt build 1 created).1 in
    (b : BudgetRow) × (row : NodeRow) × (created.status ≡ RunStatus.running)
    × (created.barrier ≡ none)
    × (find_node "build" created.nodes ≡ some row)
    × (is_ready row.status ≡ true)
    × (node_budget_limit_reached build row false true 1 ≡ false)
    × (created.budget ≡ some b)
    × ((counts_call NodeType.agent && leb b.max_executor_calls b.executor_calls) ≡ false)
    × (first_attempt ≡ record { node_id = "build"; number = row.attempt_count + 1 })
    × (s.budget
        ≡ some (record b {
          executor_calls =
              if counts_call NodeType.agent then b.executor_calls + 1 else b.executor_calls;
        }))
    × (s.attempts ≡ created.attempts ++ new_attempt "build" (row.attempt_count + 1) ∷ [])
    × (find_node "build" s.nodes ≡ some (start_row (row.attempt_count + 1) 1 row))
unfolding new_run start_attempt begin_attempt find_first initial_rows node_budget_limit_reached
start_attempt_returns_example = start_attempt_returns build 1 created first_attempt refl

start_attempt_raises_example :
    let error = value_error "no space left on device" in
    let s = (start_and_flush build 1 (raise error) created).1 in
    (s ≡ created)
    ⊎ ((◌≡◌ {A = Checked} (raise error) (raise error))
        × ((row : NodeRow) × (after : NodeRow) × (find_node "build" created.nodes ≡ some row)
            × (is_ready row.status ≡ true)
            × (find_node "build" s.nodes ≡ some after)
            × (after.status ≡ NodeStatus.running)
            × (after.attempt_count ≡ row.attempt_count + 1)
            × (s.attempts ≡ created.attempts ++ new_attempt "build" (row.attempt_count + 1) ∷ [])))
unfolding new_run start_and_flush start_attempt begin_attempt find_first initial_rows
    node_budget_limit_reached
start_attempt_raises_example =
    start_attempt_raises build 1 (raise (value_error "no space left on device")) created
      (value_error "no space left on device") refl

other_graph : created.graph_hash ≢ "h"
unfolding new_run
other_graph e = let same : ("g" == "h") ≡ true = (eq_iff "g" "h").1 e in cc

recover_refuses_example :
    (text : String) × (recover "h" "k" 7 created ≡ (raise (recovery_error text), created))
recover_refuses_example = recover_refuses "h" "k" 7 created (inr other_graph)

create_run_starts_example :
    (run_exists "r" [] ≡ false)
    × (first.run_id ≡ "r")
    × (first.status ≡ RunStatus.running)
    × (first.barrier ≡ none)
    × (first.attempts ≡ [])
    × (first.report ≡ none)
    × (map (λ n. n.node_id) first.nodes ≡ map (λ n. n.node_id) graph.nodes)
    × All (λ (n : NodeRow). is_running n.status ≡ false) first.nodes
create_run_starts_example =
    create_run_starts refs hash "r" graph "k" budget alone none 0 empty first first_created
