-- ===== src/Contracts/Examples.antt =====
-- A task contract from its staging through two revisions, and the plan of a run for it.
use graph_engineering.Prelude.{
  String, true, none, some, [], ◌∷◌, ◌≡◌, refl, Except, ok, find_first, any,
}
use graph_engineering.Contracts.Repository.{
  ContractStatus, TaskContract, Digests, FrozenContract, ContractDelta, RevisionRow, Tables,
  Confirmation, stage, freeze, apply_delta, revise, find_revision, read_frozen, new_lock,
}
use graph_engineering.Contracts.Kept.{Calls, here, next, stages, freezes, applies, contract_stays}
use graph_engineering.Models.Common.{relationship_is_not_self_referential}
use graph_engineering.Contracts.Planned.{create-get, create_planned, read_frozen-lock_matches}
use graph_engineering.Contracts.Runs.{
  PlannedRun, PlannedRow, Plans, Planner, lock_matches, related, planned_run, create, get,
}
use graph_engineering.Contracts.Revised.{apply_delta_revises}
use graph_engineering.Contracts.Again.{freeze_again}
use graph_engineering.Contracts.Locked.{Frozen, read_frozen_returns}

abbrev digests : Digests
digests = record {
  sha256 = λ c. c.description;
  verifier_sha256 = λ v. v.document;
  draft_id = λ c. c.contract_id;
  lock_id = λ c. c.description;
}

abbrev draft : TaskContract
draft = record {
  contract_id = "c";
  revision = 1;
  status = ContractStatus.draft;
  supersedes = none;
  description = "Fix the parser.";
  verifiers = record { verifier_id = "v"; document = "{}" } ∷ [];
  document = "{}";
}

abbrev consent : Confirmation
consent = record { message_id = "m"; confirmed = true }

abbrev delta : ContractDelta
delta = record {
  delta_id = "d";
  contract_id = "c";
  source_revision = 1;
  replacement_description = "Fix the parser and the printer.";
}

abbrev empty : Tables
empty = record { drafts = []; revisions = []; locks = []; deltas = []; events = [] }

abbrev tables_of {ℓ} : {A : Type ℓ} → Except (A × Tables) → Tables
tables_of (ok (a, t)) = t
tables_of _ = empty

abbrev staged : Tables
staged = tables_of (stage digests "talk" draft empty)

abbrev frozen : Tables
frozen = tables_of (freeze digests "c" consent staged)

abbrev revised : Tables
revised = tables_of (apply_delta digests delta consent frozen)

abbrev first_row : RevisionRow
first_row = record {
  contract_id = "c";
  revision = 1;
  contract = record draft { status = ContractStatus.frozen };
  contract_hash = "Fix the parser.";
  confirmation_message_id = "m";
}

revises : Calls digests frozen revised
unfolding stage freeze apply_delta find_first any
revises = next here (applies delta consent _ refl)

calls : Calls digests empty revised
unfolding stage freeze apply_delta find_first any
calls =
    next (next (next here (stages "talk" draft _ refl)) (freezes "c" consent _ refl))
      (applies delta consent _ refl)

contract_stays_example : find_revision "c" 1 revised ≡ some first_row
unfolding stage freeze apply_delta find_first any
contract_stays_example = contract_stays digests "c" 1 frozen revised revises refl

read_frozen_returns_example :
    (read_frozen "c" 1 revised
      ≡ ok (record {
        contract = first_row.contract;
        acceptance_lock = new_lock digests first_row.contract "m";
      }))
    × Frozen digests "c" 1 first_row
unfolding stage freeze apply_delta find_first any
read_frozen_returns_example = read_frozen_returns digests "c" 1 empty revised calls refl refl refl

abbrev first_frozen : FrozenContract
first_frozen = record {
  contract = first_row.contract;
  acceptance_lock = new_lock digests first_row.contract "m";
}

freeze_again_example :
    freeze digests "c" (record { message_id = "n"; confirmed = true }) frozen
    ≡ ok (first_frozen, frozen)
unfolding stage freeze find_first any
freeze_again_example =
    freeze_again digests "c" consent (record { message_id = "n"; confirmed = true }) staged frozen
      first_frozen refl refl

abbrev planner : Planner
planner = record {
  sha256 = digests.sha256;
  graph_sha256 = λ g. g.graph_id;
  identity = λ c. c.description;
  compile = λ c. ok (record {
    graph_id = c.description;
    contract_id = c.contract_id;
    contract_revision = c.revision;
    entry_node_id = "n";
    nodes = [];
    edges = [];
  });
}

abbrev no_plans : Plans
no_plans = record { planned = []; runs = []; events = [] }

abbrev plan : String → Plans → Except (PlannedRun × Plans)
plan project_id t = create planner project_id first_frozen none none (some "r") t

abbrev a_plan : String → PlannedRun
a_plan project_id =
    planned_run "r" project_id
      (record {
        graph_id = "Fix the parser.";
        contract_id = "c";
        contract_revision = 1;
        entry_node_id = "n";
        nodes = [];
        edges = [];
      })
      (related "r" none none) none "prepared"

abbrev plans_of : Except (PlannedRun × Plans) → Plans
plans_of (ok (r, t)) = t
plans_of _ = no_plans

abbrev plans : Plans
plans = plans_of (plan "p" no_plans)

create-get_example : get "r" plans ≡ ok (a_plan "p")
unfolding create get new_lock find_first any relationship_is_not_self_referential
create-get_example =
    create-get planner "p" first_frozen none none (some "r") no_plans plans (a_plan "p") refl refl

abbrev planned_row : PlannedRow
planned_row = record {
  run_id = "r";
  project_id = "p";
  contract_id = "c";
  contract_revision = 1;
  graph = (a_plan "p").graph;
  graph_hash = "Fix the parser.";
  parent_run_id = none;
  supersedes_run_id = none;
  restart_from = none;
  status = "prepared";
}

create_planned_example :
    (plans ≡ plans)
    × (((a_plan "q").project_id ≡ "q")
        × ((a_plan "q").relationship.parent_run_id ≡ none)
        × ((a_plan "q").restart_from ≡ none))
    × (((a_plan "p").project_id ≡ planned_row.project_id)
        × ((a_plan "p").relationship.parent_run_id ≡ planned_row.parent_run_id)
        × ((a_plan "p").restart_from ≡ planned_row.restart_from))
unfolding create get new_lock find_first any relationship_is_not_self_referential
create_planned_example =
    create_planned planner "q" first_frozen none none (some "r") plans plans (a_plan "q")
      (a_plan "p") planned_row refl refl refl

read_frozen-lock_matches_example : lock_matches digests.sha256 first_frozen ≡ true
unfolding stage freeze apply_delta find_first any
read_frozen-lock_matches_example =
    read_frozen-lock_matches digests "c" 1 empty revised first_frozen calls refl refl refl

abbrev second_frozen : FrozenContract
second_frozen = record {
  contract = revise first_row.contract delta;
  acceptance_lock = new_lock digests (revise first_row.contract delta) "m";
}

before_delta : Calls digests empty frozen
unfolding stage freeze find_first any
before_delta = next (next here (stages "talk" draft _ refl)) (freezes "c" consent _ refl)

apply_delta_revises_example :
    (second_frozen.contract.status ≡ ContractStatus.frozen)
    × (second_frozen.contract.contract_id ≡ "c")
    × (second_frozen.contract.revision ≡ 2)
    × (second_frozen.contract.description ≡ "Fix the parser and the printer.")
    × (second_frozen.contract.supersedes ≡ some (record { contract_id = "c"; revision = 1 }))
unfolding stage freeze apply_delta revise find_first any
apply_delta_revises_example =
    apply_delta_revises digests delta consent empty frozen revised second_frozen before_delta refl
      refl refl
