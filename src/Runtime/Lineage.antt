-- ===== src/Runtime/Lineage.antt =====
-- _validate_run_lineage of engine.py. The text of a checkpoint's reference comes from uuid4 and is an
-- argument: what stands for the n-th checkpoint of a run.
use graph_engineering.Prelude.{
  ℕ, String, Bool, true, false, ◌||◌, Option, none, some, List, [], ◌∷◌, Except, ok, require,
  required, value_error, Checked, ◌>>=◌, ◌>>◌, ◌==◌, is_some, coalesce, if◌then◌else◌, length, any,
}
use graph_engineering.Models.Common.{RunRelationship, RestartFrom, RestartStrategy, names}
use graph_engineering.Runtime.Rows.{Checkpoint}
use graph_engineering.Runtime.State.{Run}

abbrev pub run_exists : String → List Run → Bool
run_exists run_id = any (λ r. r.run_id == run_id)

check_referenced : List Run → String → Option String → Checked
check_referenced runs label none = ok tt
check_referenced runs label (some run_id) = require (run_exists run_id runs) (value_error label)

-- The checkpoint of a reference among one run's, the latest first: the oldest has number 0.
find_reference : (String → ℕ → String) → String → String → List Checkpoint → Option Checkpoint
find_reference refs reference run_id [] = none
find_reference refs reference run_id (c ∷ cs) =
    if refs run_id (length cs) == reference then some c else find_reference refs reference run_id cs

-- A checkpoint with the id of its run.
abbrev pub Source : Type 0
Source = String × Checkpoint

with_run : String → Option Checkpoint → Option Source
with_run run_id none = none
with_run run_id (some c) = some (run_id, c)

first_source : Option Source → Option Source → Option Source
first_source none rest = rest
first_source (some s) rest = some s

unfoldable pub find_checkpoint : (String → ℕ → String) → String → List Run → Option Source
unfolding find_reference with_run first_source
find_checkpoint refs reference [] = none
find_checkpoint refs reference (r ∷ rs) =
    first_source (with_run r.run_id (find_reference refs reference r.run_id r.checkpoints))
      (find_checkpoint refs reference rs)

-- source_run_id in referenced
abbrev pub is_referenced : RunRelationship → String → Bool
is_referenced rel run_id = names rel.parent_run_id run_id || names rel.supersedes_run_id run_id

restart_source :
    (String → ℕ → String)
    → List Run
    → RunRelationship
    → String
    → String
    → String
    → Except (Option Source)
restart_source refs runs rel graph_hash contract_hash reference = do
  require (is_some rel.parent_run_id || is_some rel.supersedes_run_id)
      (value_error "checkpoint restart requires a parent or superseded Run")
  source ← required (find_checkpoint refs reference runs) (value_error "checkpoint does not exist")
  require (is_referenced rel source.0)
      (value_error "checkpoint does not belong to the parent or superseded Run")
  require (source.1.graph_hash == graph_hash)
      (value_error "checkpoint Graph hash does not match the new Run")
  require (source.1.contract_hash == contract_hash)
      (value_error "checkpoint Contract hash does not match the new Run")
  ok (some source)

abbrev is_checkpoint_restart : RestartStrategy → Bool
is_checkpoint_restart RestartStrategy.checkpoint = true
is_checkpoint_restart _ = false

restart_checkpoint :
    (String → ℕ → String)
    → List Run
    → RunRelationship
    → String
    → String
    → Option RestartFrom
    → Except (Option Source)
unfolding restart_source
restart_checkpoint refs runs rel graph_hash contract_hash none = ok none
restart_checkpoint refs runs rel graph_hash contract_hash (some restart) =
    if is_checkpoint_restart restart.strategy
    then restart_source refs runs rel graph_hash contract_hash (coalesce restart.reference "")
    else ok none

unfoldable pub validate_run_lineage :
    (String → ℕ → String)
    → List Run
    → RunRelationship
    → String
    → String
    → Option RestartFrom
    → Except (Option Source)
unfolding check_referenced restart_checkpoint
validate_run_lineage refs runs rel graph_hash contract_hash restart = do
  check_referenced runs "parent Run does not exist" rel.parent_run_id
  check_referenced runs "superseded Run does not exist" rel.supersedes_run_id
  restart_checkpoint refs runs rel graph_hash contract_hash restart
