-- ===== src/Models/Common.antt =====
-- models/common.py: errors, artifacts, budgets, run relationships and restarts. Cost units, a float
-- in the source, are whole numbers of a smallest unit.
use graph_engineering.Prelude.{
  ℕ, String, Bool, false, not, ◌||◌, Option, none, some, Checked, require, value_error, ◌==◌,
  is_none,
}

pub data ErrorKind : Type 0 where
  executor verifier infrastructure authorization policy timeout internal : ErrorKind

pub record Error : Type 0 where
  pub kind : ErrorKind
  pub code : String
  pub message : String
  pub retryable : Bool

pub data ArtifactKind : Type 0 where
  log report patch source test_result evidence other : ArtifactKind

pub record Artifact : Type 0 where
  pub artifact_id : String
  pub kind : ArtifactKind
  pub uri : String
  pub sha256_digest : Option String
  pub media_type : Option String
  pub size_bytes : Option ℕ

pub record Budget : Type 0 where
  pub max_duration_seconds : ℕ
  pub max_executor_calls : ℕ
  pub max_repair_iterations : ℕ
  pub max_cost_units : Option ℕ

pub record RunRelationship : Type 0 where
  pub run_id : String
  pub parent_run_id : Option String
  pub supersedes_run_id : Option String

-- `value == text` where the value may be None.
abbrev pub names : Option String → String → Bool
names none s = false
names (some t) s = t == s

unfoldable pub relationship_is_not_self_referential : RunRelationship → Checked
relationship_is_not_self_referential r =
    require (not (names r.parent_run_id r.run_id || names r.supersedes_run_id r.run_id))
      (value_error "parent_run_id and supersedes_run_id must not equal run_id")

pub data RestartStrategy : Type 0 where
  clean_base accepted_commit checkpoint : RestartStrategy

pub record RestartFrom : Type 0 where
  pub strategy : RestartStrategy
  pub reference : Option String

-- Python's truth of an optional text: neither None nor empty.
abbrev pub truthy : Option String → Bool
truthy none = false
truthy (some s) = not (s == "")

check_reference : RestartStrategy → Option String → Checked
check_reference clean_base reference =
    require (is_none reference) (value_error "reference must be omitted for strategy clean_base")
check_reference accepted_commit reference =
    require (truthy reference) (value_error "reference is required for strategy accepted_commit")
check_reference checkpoint reference =
    require (truthy reference) (value_error "reference is required for strategy checkpoint")

pub reference_matches_strategy : RestartFrom → Checked
unfolding check_reference
reference_matches_strategy r = check_reference r.strategy r.reference
