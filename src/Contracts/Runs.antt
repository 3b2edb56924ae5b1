-- ===== src/Contracts/Runs.antt =====
-- RunPlanner of contracts/runs.py on the table planned_runs.
use graph_engineering.Prelude.{
  ℕ, String, Bool, ◌&&◌, ◌||◌, Option, none, some, List, [], ◌∷◌, ◌++◌, Except, Checked, ok,
  require, required, key_error, value_error, ◌>>=◌, ◌>>◌, ◌==◌, eqb, is_some, any, find_first,
  if◌then◌else◌,
}
use graph_engineering.Models.Common.{
  RunRelationship, RestartFrom, relationship_is_not_self_referential,
}
use graph_engineering.Models.Graph.{ExecutionGraph}
use graph_engineering.Contracts.Repository.{TaskContract, FrozenContract}

pub record PlannedRun : Type 0 where
  pub run_id : String
  pub project_id : String
  pub graph : ExecutionGraph
  pub relationship : RunRelationship
  pub restart_from : Option RestartFrom
  pub status : String

-- planned_runs
pub record PlannedRow : Type 0 where
  pub run_id : String
  pub project_id : String
  pub contract_id : String
  pub contract_revision : ℕ
  pub graph : ExecutionGraph
  pub graph_hash : String
  pub parent_run_id : Option String
  pub supersedes_run_id : Option String
  pub restart_from : Option RestartFrom
  pub status : String

-- The table, the ids of the table `runs`, and the types of the events, the latest first.
pub record Plans : Type 0 where
  pub planned : List PlannedRow
  pub runs : List String
  pub events : List String

-- The digests of contracts and graphs, the id that a contract gives its run, and the compiler.
pub record Planner : Type 0 where
  pub sha256 : TaskContract → String
  pub graph_sha256 : ExecutionGraph → String
  pub identity : TaskContract → String
  pub compile : TaskContract → Except ExecutionGraph

unfoldable pub lock_matches : (TaskContract → String) → FrozenContract → Bool
lock_matches sha256 f =
    f.acceptance_lock.contract_id == f.contract.contract_id
    && (eqb f.acceptance_lock.contract_revision f.contract.revision
        && f.acceptance_lock.contract_hash == sha256 f.contract)

-- `run_id or f"run-{identity}"`
unfoldable pub planned_id : Planner → TaskContract → Option String → String
planned_id p c none = p.identity c
planned_id p c (some id) = if id == "" then p.identity c else id

unfoldable pub is_planned : String → PlannedRow → Bool
is_planned run_id row = row.run_id == run_id

unfoldable pub find_planned : String → Plans → Option PlannedRow
unfolding is_planned
find_planned run_id t = find_first (is_planned run_id) t.planned

unfoldable pub check_source : Option String → Plans → Checked
unfolding find_planned
check_source none t = ok tt
check_source (some source) t =
    require (is_some (find_planned source t) || any (λ id. id == source) t.runs)
      (value_error "source Run does not exist")

unfoldable pub new_planned :
    Planner
    → String
    → String
    → TaskContract
    → ExecutionGraph
    → Option String
    → Option RestartFrom
    → PlannedRow
new_planned p run_id project_id c graph source restart_from = record {
  run_id = run_id;
  project_id = project_id;
  contract_id = c.contract_id;
  contract_revision = c.revision;
  graph = graph;
  graph_hash = p.graph_sha256 graph;
  parent_run_id = source;
  supersedes_run_id = source;
  restart_from = restart_from;
  status = "prepared";
}

unfoldable pub insert_planned : PlannedRow → Plans → Plans
insert_planned row t = record t {
  planned = t.planned ++ row ∷ [];
  events = "run.prepared" ∷ t.events;
}

-- What is written: a new row, or nothing where the row of the same graph is there.
unfoldable pub write_planned : PlannedRow → Option PlannedRow → Plans → Except Plans
unfolding insert_planned
write_planned row none t = ok (insert_planned row t)
write_planned row (some existing) t = do
  require (existing.graph_hash == row.graph_hash) (value_error "prepared Run ID collision")
  ok t

abbrev pub related : String → Option String → Option String → RunRelationship
related run_id parent supersedes = record {
  run_id = run_id;
  parent_run_id = parent;
  supersedes_run_id = supersedes;
}

unfoldable pub planned_run :
    String → String → ExecutionGraph → RunRelationship → Option RestartFrom → String → PlannedRun
planned_run run_id project_id graph relationship restart_from status = record {
  run_id = run_id;
  project_id = project_id;
  graph = graph;
  relationship = relationship;
  restart_from = restart_from;
  status = status;
}

unfoldable pub create :
    Planner
    → String
    → FrozenContract
    → Option String
    → Option RestartFrom
    → Option String
    → Plans
    → Except (PlannedRun × Plans)
unfolding lock_matches check_source planned_id find_planned new_planned write_planned planned_run
create p project_id f source restart_from run_id t = do
  require (lock_matches p.sha256 f)
      (value_error "acceptance lock does not match the frozen Contract")
  graph ← p.compile f.contract
  let id = planned_id p f.contract run_id
  relationship_is_not_self_referential (related id source source)
  check_source source t
  s ←
      write_planned (new_planned p id project_id f.contract graph source restart_from)
        (find_planned id t) t
  ok (planned_run id project_id graph (related id source source) restart_from "prepared", s)

unfoldable pub get : String → Plans → Except PlannedRun
unfolding find_planned planned_run
get run_id t = do
  row ← required (find_planned run_id t) (key_error run_id)
  relationship_is_not_self_referential (related row.run_id row.parent_run_id row.supersedes_run_id)
  ok (
      planned_run row.run_id row.project_id row.graph
        (related row.run_id row.parent_run_id row.supersedes_run_id) row.restart_from row.status)
