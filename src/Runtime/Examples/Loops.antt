-- ===== src/Runtime/Examples/Loops.antt =====
-- _run on the example run, a branch of a container, and a flush of the outbox.
use graph_engineering.Prelude.{
  ℕ, Exception, all, any, least, find_first, update_where, true, false, none, some, [], ◌∷◌, ◌≡◌,
  ◌≢◌, ◌⊎◌, refl, subst, arith, ok, raise, value_error, distinct, elem, select,
}
use graph_engineering.Models.Graph.{Node, NodeType, NestedNode, Subgraph}
use graph_engineering.Models.Results.{
  Result, ExecutorStatus, VerifierStatus, executor, verifier, validated,
}
use graph_engineering.Models.Reports.{RunStatus, status_reason_and_error_are_consistent}
use graph_engineering.Runtime.State.{Run, transaction}
use graph_engineering.Runtime.Creation.{create_run, initial_rows}
use graph_engineering.Runtime.Lineage.{validate_run_lineage}
use graph_engineering.Runtime.Branches.{initialize, add_branches}
use graph_engineering.Runtime.Limits.{budget_limit_reached}
use graph_engineering.Runtime.Queries.{graph_node, traversals, add_traversal}
use graph_engineering.Runtime.Attempts.{start_attempt, persist_result, record_attempt, node_status}
use graph_engineering.Runtime.Artifacts.{register_artifacts}
use graph_engineering.Runtime.Finish.{
  freeze_report, build_report, terminate, finish, honor_barrier_after_result,
}
use graph_engineering.Runtime.Routes.{
  route_result, follow_edge, take_edge, repairs_exhausted, is_repair, verdict,
}
use graph_engineering.Runtime.Conditions.{select_edge, condition_matches}
use graph_engineering.Runtime.Steps.{here, create_run-Reach-Inv}
use graph_engineering.Runtime.Invariant.{Inv}
use graph_engineering.Runtime.Creation.{new_run}
use graph_engineering.Runtime.Boundaries.{
  World, called, executed, stand_for, exception_text, invoke_with,
}
use graph_engineering.Runtime.Loop.{run}
use graph_engineering.Runtime.Loop.Answers.{Sound, Reports, invoke_with_raises}
use graph_engineering.Runtime.Loop.Turns.{run-Inv}
use graph_engineering.Runtime.Loop.Outcome.{rests, run_returns}
use graph_engineering.Runtime.Branches.Apart.{Apart}
use graph_engineering.Runtime.Branches.Pool.{Boundary}
use graph_engineering.Runtime.Events.{
  OutboxRow, Store, line_ids, write_line, read_and_flush, unmarked,
}
use graph_engineering.Runtime.Events.Resume.{Readable, Unreadable, flush_resumes}
use graph_engineering.Runtime.Examples.{
  no_config, graph, budget, alone, empty, refs, hash, first, build, first_attempt,
}
use graph_engineering.Runtime.Examples.Sequences.{no_source, first_created}

abbrev answer : NodeType → Result
answer NodeType.verifier = verifier (record {
  status = VerifierStatus.passed;
  summary = "accepted";
  artifacts = [];
  external_handle = none;
  retryable = false;
  failure_details = [];
  error = none;
})
answer _ = executor (record {
  status = ExecutorStatus.succeeded;
  summary = "built";
  changed_files = "a.py" ∷ [];
  artifacts = [];
  failure_reason = none;
  error = none;
})

answer_valid : (t : NodeType) → validated (answer t) ≡ ok tt
unfolding validated
answer_valid NodeType.verifier = refl
answer_valid _ = refl

-- Executors and verifiers that succeed, while no other thread works.
abbrev world : World
world = record {
  execute = λ node id r. (ok (answer node.node_type), r);
  query = λ q r. (
    ok (record {
      status = VerifierStatus.passed;
      summary = "accepted";
      artifacts = [];
      external_handle = none;
      retryable = false;
      failure_details = [];
      error = none;
    }),
    r,
  );
}

world-Sound : Sound world
unfolding validated
world-Sound = record {
  executes = λ node id r result e.
      let same : answer node.node_type ≡ result = ground arith in
      subst (λ x. validated x ≡ ok tt) same (answer_valid node.node_type);
  answers = λ q r v e.
      let same : verifier (record {
        status = VerifierStatus.passed;
        summary = "accepted";
        artifacts = [];
        external_handle = none;
        retryable = false;
        failure_details = [];
        error = none;
      })
          ≡ verifier v =
        ground arith in
      subst (λ x. validated x ≡ ok tt) same refl;
}

first-Inv : Inv first
first-Inv =
    create_run-Reach-Inv refs hash "r" graph "k" budget alone none 0 empty first first no_source
      first_created here

run-Inv_example : Inv (run world graph none (1 ∷ 2 ∷ 3 ∷ []) first).1
run-Inv_example =
    run-Inv world graph none (1 ∷ 2 ∷ 3 ∷ []) first world-Sound (λ n id s. here) (λ q s. here)
      first-Inv

run_returns_example :
    ((run world graph none (1 ∷ 2 ∷ 3 ∷ []) first).1.status ≡ RunStatus.succeeded)
    × (rests RunStatus.succeeded ≡ true)
unfolding run create_run validate_run_lineage any initialize budget_limit_reached least select
    initial_rows find_first graph_node start_attempt persist_result register_artifacts
    honor_barrier_after_result record_attempt update_where route_result finish select_edge new_run
    follow_edge take_edge transaction condition_matches repairs_exhausted is_repair node_status
    traversals add_traversal freeze_report build_report terminate verdict
    status_reason_and_error_are_consistent
run_returns_example = run_returns world graph (1 ∷ 2 ∷ 3 ∷ []) first RunStatus.succeeded refl

abbrev nested : NestedNode
nested = record { node_id = "step"; node_type = NodeType.agent; config = no_config; budget = none }

abbrev inner : Subgraph
inner = record { subgraph_id = "s"; entry_node_id = "step"; nodes = nested ∷ []; edges = [] }

abbrev container : Node
container = record {
  node_id = "c";
  node_type = NodeType.subgraph;
  config = no_config;
  budget = none;
  subgraph = some inner;
  parallel = none;
  join = none;
}

abbrev contained : Run
contained = add_branches "c" 0 (record { branch_id = "subgraph"; subgraph = inner } ∷ []) first

abbrev inside : Boundary
inside = record { invoke = λ node id r. (ok (some (answer node.node_type)), r); ask = world.query }

abbrev started : OutboxRow
started = record { event_id = "e1"; event_json = "started"; delivered = false }

abbrev ended : OutboxRow
ended = record { event_id = "e2"; event_json = "ended"; delivered = false }

abbrev pending : Store
pending = record { outbox = started ∷ ended ∷ []; file = [] }

flush_resumes_example :
    (Readable (write_line started pending)
      × ((n : ℕ) × ((read_and_flush (write_line started pending)).0 ≡ ok n))
      × ((read_and_flush (write_line started pending)).1 ≡ (read_and_flush pending).1))
    ⊎ (Unreadable (write_line started pending)
        × ((e : Exception) × (read_and_flush (write_line started pending)
              ≡ (raise e, write_line started pending))))
unfolding distinct elem select line_ids all
flush_resumes_example = flush_resumes pending (write_line started pending) refl refl (unmarked refl)

-- An executor that raises.
abbrev broken : World
broken = record { execute = λ node id r. (raise (value_error "no disk"), r); query = world.query }

invoke_with_raises_example :
    ((invoke_with inside broken 1 build first_attempt first).1 ≡ first)
    × (((exception_text (value_error "no disk") ≡ "")
          × ((invoke_with inside broken 1 build first_attempt first).0
              ≡ raise (value_error "String should have at least 1 character")))
        ⊎ ((exception_text (value_error "no disk") ≢ "")
            × ((x : Result) × ((invoke_with inside broken 1 build first_attempt first).0
                  ≡ ok (some x))
                × Reports NodeType.agent "no disk" x)))
unfolding called executed stand_for exception_text
invoke_with_raises_example =
    invoke_with_raises inside broken 1 build first_attempt first (value_error "no disk") refl
