-- ===== src/Runtime/Steps.antt =====
-- Runs as interleavings: the methods that threads and processes call on one run, in any order and
-- with any arguments, each step the whole of one call.
pub mod Ended
pub mod Absorbing
use graph_engineering.Prelude.{
  ℕ, String, Bool, true, Option, none, List, [], ◌≡◌, refl, Except, ok, All,
}
use graph_engineering.Models.Common.{Error, Budget, RunRelationship, RestartFrom}
use graph_engineering.Models.Graph.{Node, NestedNode, Edge, ExecutionGraph}
use graph_engineering.Models.Results.{Result, VerifierResult, validated}
use graph_engineering.Models.Control.{ControlIntent}
use graph_engineering.Models.Reports.{RunStatus, TerminalStatus, TerminalReason}
use graph_engineering.Runtime.Rows.{NodeRow, AttemptId, Barrier}
use graph_engineering.Runtime.State.{Run}
use graph_engineering.Runtime.Finish.{
  finish, finish_uncertain_external_effect, pause_at_safe_point, honor_barrier_after_result,
}
use graph_engineering.Runtime.Attempts.{start_attempt, persist_result}
use graph_engineering.Runtime.Routes.{route_result}
use graph_engineering.Runtime.Branches.Ends.{block_branch}
use graph_engineering.Runtime.Branches.Attempts.{start_branch_attempt}
use graph_engineering.Runtime.Branches.Routes.{
  Query, route_branch, persist_branch_result, continue_branch_external,
}
use graph_engineering.Runtime.Branches.Apart.{apart_refl, Apart}
use graph_engineering.Runtime.Branches.Isolation.{
  start_apart, route_apart, persist_apart, external_apart, block_apart,
}
use graph_engineering.Runtime.Costs.{charge_cost, reserve_cost}
use graph_engineering.Runtime.Branches.{cancel_branches}
use graph_engineering.Runtime.Control.{VerifierControl, control, cancel}
use graph_engineering.Runtime.Recovery.{recover}
use graph_engineering.Runtime.Lineage.{Source, validate_run_lineage}
use graph_engineering.Runtime.Creation.{Database, create_run, saved_nodes}
use graph_engineering.Runtime.Invariant.{Inv, fits, settled}
use graph_engineering.Runtime.Invariant.Ending.{
  finish-Inv, finish_uncertain-Inv, pause_at_safe_point-Inv, honor_barrier-Inv, requested_pause,
}
use graph_engineering.Runtime.Invariant.Attempts.{start_attempt-Inv, persist_result-Inv}
use graph_engineering.Runtime.Invariant.Routing.{route_result-Inv}
use graph_engineering.Runtime.Invariant.Controls.{cancel_branches-Inv, control-Inv, cancel-Inv}
use graph_engineering.Runtime.Invariant.Spending.{charge_cost-Inv, reserve_cost-Inv, recover-Inv}
use graph_engineering.Runtime.Invariant.Creating.{create_run-Inv}

-- `persist` keeps a result that its model has validated; `ends` is a call of _finish with a status,
-- a reason and an error that fit, and `pauses` the call in _run's branch for a requested pause.
pub data Step (graph : ExecutionGraph) : Run → Run → Type 0 where
  starts : {r : Run} (node : Node) (now : ℕ) → Step graph r (start_attempt node now r).1
  persists :
      {r : Run} (node : Node) (id : AttemptId) (result : Result)
      → validated result ≡ ok tt
      → Step graph r (persist_result node id result r).1
  routes :
      {r : Run} (node_id : String) (now : ℕ) → Step graph r (route_result graph node_id now r).1
  honors : {r : Run} (now : ℕ) → Step graph r (honor_barrier_after_result now r).1
  pauses : {r : Run} → r.status ≡ RunStatus.pause_requested → Step graph r (pause_at_safe_point r).1
  ends :
      {r : Run} (status : TerminalStatus) (reason : TerminalReason) (error : Option Error) (now : ℕ)
      → fits status reason error ≡ true
      → Step graph r (finish status reason error now r).1
  cancels_branches :
      {r : Run} (reason : String) (include_active : Bool)
      → Step graph r (cancel_branches reason include_active r)
  controls : {r : Run} (v : VerifierControl) (i : ControlIntent) → Step graph r (control v i r).1
  cancels : {r : Run} (v : VerifierControl) (now : ℕ) → Step graph r (cancel v now r).1
  charges :
      {r : Run} (cost : ℕ) (node_id : Option String) (now : ℕ)
      → Step graph r (charge_cost graph cost node_id now r).1
  reserves :
      {r : Run} (id : String) (cost : ℕ) (node_id : Option String)
      → Step graph r (reserve_cost graph id cost node_id r).1
  recovers :
      {r : Run} (graph_hash contract_hash : String) (now : ℕ)
      → Step graph r (recover graph_hash contract_hash now r).1
  ends_uncertain :
      {r : Run} (node_id : String) (now : ℕ)
      → Step graph r (finish_uncertain_external_effect node_id now r).1
  starts_branch :
      {r : Run} (container branch : String) (nested : NestedNode) (now : ℕ)
      → Step graph r (start_branch_attempt container branch nested now r).1
  routes_branch :
      {r : Run} (container branch : String) (edges : List Edge) (node_id : String) (result : Result)
      → Step graph r (route_branch edges container branch node_id result r).1
  persists_branch :
      {r : Run} (container branch : String) (edges : List Edge) (nested : NestedNode)
      (id : AttemptId) (result : Result)
      → Step graph r (persist_branch_result edges container branch nested id result r).1
  continues_branch :
      {r : Run} (container branch : String) (ask : Query → Except VerifierResult)
      (edges : List Edge) (nested : NestedNode)
      → Step graph r
          (continue_branch_external (λ q s. (ask q, s)) edges container branch nested r).1
  blocks_branch :
      {r : Run} (container branch reason : String) (error_status : Bool)
      → Step graph r (block_branch container branch reason error_status r)

pub data Reach (graph : ExecutionGraph) (r : Run) : Run → Type 0 where
  here : Reach graph r r
  next : {s t : Run} → Reach graph r s → Step graph s t → Reach graph r t

Apart-Inv : (container branch : String) {r s : Run} → Apart container branch r s → Inv r → Inv s
Apart-Inv container branch {r = r} {s = s} a h = record {
  in_phase = rw a.same_status (rw a.same_barrier (rw a.same_reason (rw a.same_error h.in_phase)));
  in_budget = a.keeps_budget h.in_budget;
  results = rw a.same_nodes h.results;
}

pub Step-Inv : {graph : ExecutionGraph} {r s : Run} → Step graph r s → Inv r → Inv s
Step-Inv (starts node now) h = start_attempt-Inv node now h
Step-Inv (persists node id result valid) h = persist_result-Inv node id result h valid
Step-Inv {graph = graph} (routes node_id now) h = route_result-Inv graph node_id now h
Step-Inv (honors now) h = honor_barrier-Inv now h
Step-Inv (pauses e) h = pause_at_safe_point-Inv h (requested_pause h e)
Step-Inv (ends status reason error now f) h = finish-Inv status reason error now h f
Step-Inv (cancels_branches reason include_active) h = cancel_branches-Inv reason include_active h
Step-Inv (controls v i) h = control-Inv v i h
Step-Inv (cancels v now) h = cancel-Inv v now h
Step-Inv {graph = graph} (charges cost node_id now) h = charge_cost-Inv graph cost node_id now h
Step-Inv {graph = graph} (reserves id cost node_id) h = reserve_cost-Inv graph id cost node_id h
Step-Inv (recovers graph_hash contract_hash now) h = recover-Inv graph_hash contract_hash now h
Step-Inv (ends_uncertain node_id now) h = finish_uncertain-Inv node_id now h
Step-Inv (starts_branch c b nested now) h = Apart-Inv c b (start_apart c b nested now _) h
Step-Inv (routes_branch c b edges node_id result) h =
    Apart-Inv c b (route_apart c b edges node_id result _) h
Step-Inv (persists_branch c b edges nested id result) h =
    Apart-Inv c b (persist_apart c b edges nested id result _) h
Step-Inv (continues_branch c b ask edges nested) h =
    Apart-Inv c b (external_apart c b (λ q s. (ask q, s)) (λ q s. apart_refl c b s) edges nested _)
      h
Step-Inv (blocks_branch c b reason error_status) h =
    Apart-Inv c b (block_apart c b reason error_status _) h

pub Reach-trans :
    {graph : ExecutionGraph} {r s t : Run} → Reach graph r s → Reach graph s t → Reach graph r t
Reach-trans h here = h
Reach-trans h (next path step) = next (Reach-trans h path) step

pub Reach-Inv : {graph : ExecutionGraph} {r s : Run} → Inv r → Reach graph r s → Inv s
Reach-Inv h here = h
Reach-Inv h (next path step) = Step-Inv step (Reach-Inv h path)

-- From a run that create_run returns, whatever calls follow in whatever order: the barrier, the
-- terminal reason and the error are those that the status has, the executor calls and the repairs
-- stay within the budget, and each kept result has a verdict that a final report admits. A run that
-- starts from a checkpoint needs the results of that checkpoint to be such.
pub create_run-Reach-Inv :
    (refs : String → ℕ → String) (sha256 : ExecutionGraph → String) (run_id : String)
    (graph : ExecutionGraph) (contract_hash : String) (budget : Budget) (rel : RunRelationship)
    (restart : Option RestartFrom) (now : ℕ) (db : Database) (r s : Run)
    → ((source : Option Source)
        → validate_run_lineage refs db.runs rel (sha256 graph) contract_hash restart ≡ ok source
        → All (λ (n : NodeRow). settled n.result ≡ true) (saved_nodes source))
    → create_run refs sha256 run_id graph contract_hash budget rel restart now db ≡ ok r
    → Reach graph r s
    → Inv s
create_run-Reach-Inv refs sha256 run_id graph contract_hash budget rel restart now db r s h e path =
    Reach-Inv (create_run-Inv refs sha256 run_id graph contract_hash budget rel restart now db h e)
      path
