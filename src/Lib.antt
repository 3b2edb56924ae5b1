-- ===== src/Lib.antt =====
-- The execution core of Graph Engineering: the runtime that runs an execution graph of agents,
-- commands, verifiers and containers against a SQLite database, the models that it exchanges, the
-- life cycle of the verifiers that it calls, and the revisions of the task contracts that it serves.
--
-- The program's parts. GraphRuntime (src/graph_engineering/runtime/engine.py) creates a run, starts
-- attempts, keeps their results, routes along the edges of the graph, charges costs, obeys human
-- control, recovers after a crash and ends the run with a report; its loop _run calls the executors
-- and the verifiers. ParallelCoordinator (src/graph_engineering/runtime/parallel.py) runs the branches
-- of container nodes and joins them. EventStore (src/graph_engineering/runtime/events.py) copies the
-- events of the outbox to a file. VerifierRepository (src/graph_engineering/verifier/lifecycle.py)
-- takes a revision of a verifier from its staging to its freeze for a contract.
-- ContractRepository (src/graph_engineering/contracts/repository.py) freezes a confirmed draft of a
-- task contract as a revision with an acceptance lock, and makes later revisions from deltas;
-- RunPlanner (src/graph_engineering/contracts/runs.py) plans the run of a frozen contract.
-- All write through StateStore (src/graph_engineering/runtime/store.py), whose transactions commit
-- or roll back as a whole, and exchange the models of src/graph_engineering/models.
--
-- Files and code:
--   Prelude            tests, lists, and computations that raise an exception
--   Models/Common, Graph, Results, Control, Reports
--                      the file of the same name under src/graph_engineering/models, with the
--                      model validators as functions that return or raise
--   Models/Topology    theorems on the validation of graphs
--   Runtime/Rows       the tables of store.py
--   Runtime/State      one run with its rows, transaction, enqueue_event, and _checkpoint
--   Runtime/Queries    the lookups and updates by key of the SQL statements, and _node
--   Runtime/Limits     _budget_limit_reached, _node_budget_limit_reached
--   Runtime/Artifacts  _register_artifact
--   Runtime/Finish     _finish, _freeze_report, _finish_uncertain_external_effect,
--                      _pause_at_safe_point, _honor_barrier_after_result
--   Runtime/Attempts   _start_attempt, _persist_result, _node_status, _latest_attempt_id
--   Runtime/Conditions _condition_matches and the search for an edge in _route_result
--   Runtime/Routes     _route_result
--   Runtime/Costs      charge_cost, reserve_cost
--   Runtime/Branches   initialize, inherit and _cancel_branches of parallel.py
--   Runtime/Branches/Attempts, Routes, Ends, Pool
--                      the attempts, the routes and the ends of branches, _branch_step and step of
--                      parallel.py; Apart, Isolation, Moves and Others hold what they leave alone
--   Runtime/Joins      aggregate and join of parallel.py
--   Runtime/Control    control, cancel, _record_control, _cancel_external_handles
--   Runtime/Lineage    _validate_run_lineage
--   Runtime/Creation   create_run
--   Runtime/Recovery   _recover, latest_checkpoint
--   Runtime/Boundaries _invoke of engine.py
--   Runtime/Loop       _run and _continue_external of engine.py, with theorems below it
--   Runtime/Events     events.py, with theorems below it
--   Runtime/Invariant  the invariant of a run and, below it, its lemma for each operation
--   Runtime/Steps      sequences of calls on one run
--   Runtime/Beginning, Starts, Reports, Verdicts, Routing, Following, Reservations,
--   Joining, Asides, Controls, Races, Cancelling, Recovering, Transactions
--                      theorems on the operations
--   Runtime/Examples   a small run on which the theorems are applied
--   Verifier/Lifecycle src/graph_engineering/verifier/lifecycle.py
--   Verifier/History, Earned, Bound
--                      theorems on sequences of calls of the repository
--   Verifier/Examples  a revision on which they are applied
--   Contracts/Repository
--                      src/graph_engineering/contracts/repository.py
--   Contracts/Kept, Locked, Again, Revised
--                      theorems on sequences of calls of the repository
--   Contracts/Runs     src/graph_engineering/contracts/runs.py
--   Contracts/Planned  theorems on the runs that it plans
--   Contracts/Examples a contract on which they are applied
--
-- How the model stands for the code. A run is a record: its row of `runs` and the rows of the other
-- tables that carry its id. `Exec A` is a method, a function from a run to what it returns or raises
-- and the run that it leaves; `Body A` is the body of a transaction, which yields no run where it
-- raises. Checkpoints and the outbox have the latest entry first. A method on one run is given the
-- graph, for which the code looks in a dictionary by the id of the run. Results stand in the rows as
-- values, not as JSON text. Each method takes one reading of the clock, in microseconds. Costs, floats
-- in the code, are whole numbers of a smallest unit, so rounding is not modelled. The hash of a graph,
-- the references of checkpoints, the digests of files and contracts, the graph that the compiler makes
-- of a contract, what executors and verifiers answer and the run as other threads leave it while they
-- work are arguments. The loop _run is given one reading of the clock for each turn and stops where
-- they are used up; the other definitions recur on their lists, so there is no fuel. The branches that
-- the pool of a container runs at once are run one after another.
--
-- start_attempt and reserve_cost end before their flush of the events, which start_and_flush and
-- reserve_and_flush add. The flush that ends the other methods is left out: it writes only the file
-- and the marks of the outbox, and where it raises the method raises with its writes committed. What
-- is said of the result of a method is said of the method up to that flush.
--
-- Not modelled: the stop of a flush that leaves the JSON of an event without its newline; snapshot and
-- the live report; telemetry; the texts of aggregates; time stamps that nothing reads; of
-- contracts/repository.py the listings, the example draft and replace_frozen, which always raises; and
-- the components outside models, runtime, contracts and verifier/lifecycle.py. Nodes inside a subgraph
-- carry no definitions of their own, as the validator refuses nested containers. A step of
-- Runtime/Steps is a whole call: another thread's transaction between two transactions of one call is
-- not among its sequences, and in _run and in the branches of a container other threads act only at a
-- call of an executor or a verifier. Runtime/Races has a sequence beyond these.
mod Prelude
pub mod Models
pub mod Runtime
pub mod Verifier
pub mod Contracts
