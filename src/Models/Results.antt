-- ===== src/Models/Results.antt =====
-- models/results.py: what executors, verifiers and parallel branches report.
use graph_engineering.Prelude.{
  ℕ, String, Bool, true, false, not, ◌&&◌, ◌||◌, Option, none, some, List, [], ◌∷◌, map, Checked,
  require, value_error, ◌>>◌, if◌then◌else◌, leb, text_lt,
}
use graph_engineering.Models.Common.{Artifact, Error, truthy}

pub data ExecutorStatus : Type 0 where
  succeeded failed error cancelled : ExecutorStatus

pub record ExecutorResult : Type 0 where
  pub status : ExecutorStatus
  pub summary : String
  pub changed_files : List String
  pub artifacts : List Artifact
  pub failure_reason : Option String
  pub error : Option Error

pub data VerifierStatus : Type 0 where
  pending passed failed error cancelled : VerifierStatus

pub record VerifierResult : Type 0 where
  pub status : VerifierStatus
  pub summary : String
  pub artifacts : List Artifact
  pub external_handle : Option String
  pub retryable : Bool
  pub failure_details : List String
  pub error : Option Error

pub data BranchStatus : Type 0 where
  succeeded failed blocked error cancelled : BranchStatus

pub record BranchResult : Type 0 where
  pub branch_id : String
  pub status : BranchStatus
  pub summary : String
  pub completed_node_ids : List String
  pub changed_files : List String
  pub artifacts : List Artifact
  pub failure_details : List String
  pub error : Option Error

pub record ParallelResult : Type 0 where
  pub parallel_node_id : String
  pub status : BranchStatus
  pub summary : String
  pub branches : List BranchResult
  pub changed_files : List String
  pub artifacts : List Artifact
  pub failure_details : List String
  pub error : Option Error

-- Result = ExecutorResult | VerifierResult | ParallelResult
pub data Result : Type 0 where
  executor : ExecutorResult → Result
  verifier : VerifierResult → Result
  parallel : ParallelResult → Result

abbrev pub is_empty {ℓ} : {A : Type ℓ} → List A → Bool
is_empty [] = true
is_empty (x ∷ xs) = false

-- An error is there exactly when the status asks for one.
unfoldable pub check_error : Bool → Option Error → Checked
check_error wanted none =
    require (not wanted) (value_error "error is required when status is error")
check_error wanted (some e) =
    require wanted (value_error "error is only allowed when status is error")

is_failed_executor : ExecutorStatus → Bool
is_failed_executor failed = true
is_failed_executor _ = false

abbrev pub is_error_executor : ExecutorStatus → Bool
is_error_executor error = true
is_error_executor _ = false

unfoldable pub distinguish_failed_from_error_executor : ExecutorResult → Checked
unfolding check_error is_failed_executor
distinguish_failed_from_error_executor r = do
  require (not (is_failed_executor r.status) || truthy r.failure_reason)
      (value_error "failure_reason is required when status is failed")
  check_error (is_error_executor r.status) r.error

is_failed_verifier : VerifierStatus → Bool
is_failed_verifier failed = true
is_failed_verifier _ = false

abbrev pub is_error_verifier : VerifierStatus → Bool
is_error_verifier error = true
is_error_verifier _ = false

unfoldable pub distinguish_failed_from_error_verifier : VerifierResult → Checked
unfolding check_error is_failed_verifier
distinguish_failed_from_error_verifier r = do
  require (not (is_failed_verifier r.status && is_empty r.failure_details))
      (value_error "failure_details is required when status is failed")
  check_error (is_error_verifier r.status) r.error

abbrev pub is_failed_branch : BranchStatus → Bool
is_failed_branch failed = true
is_failed_branch _ = false

-- status in {ERROR, BLOCKED}
abbrev pub needs_error : BranchStatus → Bool
needs_error error = true
needs_error blocked = true
needs_error _ = false

unfoldable pub failure_semantics_are_explicit : BranchResult → Checked
unfolding check_error
failure_semantics_are_explicit b = do
  require (not (is_failed_branch b.status && is_empty b.failure_details))
      (value_error "failure_details is required for a failed branch")
  check_error (needs_error b.status) b.error

abbrev pub precedence : BranchStatus → ℕ
precedence succeeded = 0
precedence cancelled = 1
precedence failed = 2
precedence blocked = 3
precedence error = 4

-- max(..., key=precedence), which keeps the first of equals.
unfoldable pub max_status : BranchStatus → List BranchStatus → BranchStatus
max_status best [] = best
max_status best (s ∷ ss) = max_status (if leb (precedence s) (precedence best) then best else s) ss

-- branch_ids == sorted(branch_ids) with no repetition: each strictly before the next.
unfoldable pub strictly_sorted : List String → Bool
strictly_sorted [] = true
strictly_sorted (a ∷ []) = true
strictly_sorted (a ∷ b ∷ rest) = text_lt a b && strictly_sorted (b ∷ rest)

abbrev pub same_status : BranchStatus → BranchStatus → Bool
same_status s t = leb (precedence s) (precedence t) && leb (precedence t) (precedence s)

-- The validator's expected status; an empty list of branches is refused by its Field.
unfoldable pub expected_status : List BranchResult → Option BranchStatus
unfolding max_status
expected_status [] = none
expected_status (b ∷ bs) = some (max_status b.status (map (λ b. b.status) bs))

unfoldable pub matches_expected : BranchStatus → Option BranchStatus → Bool
matches_expected s none = false
matches_expected s (some t) = same_status s t

unfoldable pub canonical_aggregate_is_consistent : ParallelResult → Checked
unfolding check_error matches_expected
canonical_aggregate_is_consistent p = do
  require (strictly_sorted (map (λ b. b.branch_id) p.branches))
      (value_error "parallel branches must be unique and sorted by branch_id")
  require (matches_expected p.status (expected_status p.branches))
      (value_error "parallel status must match deterministic branch precedence")
  require (not (is_failed_branch p.status && is_empty p.failure_details))
      (value_error "failure_details is required for failed parallel results")
  check_error (needs_error p.status) p.error

-- The model_validator of each kind of result.
unfoldable pub validated : Result → Checked
unfolding distinguish_failed_from_error_executor distinguish_failed_from_error_verifier
    canonical_aggregate_is_consistent
validated (executor e) = distinguish_failed_from_error_executor e
validated (verifier v) = distinguish_failed_from_error_verifier v
validated (parallel p) = canonical_aggregate_is_consistent p

-- A pending verifier's result, which ends no attempt.
abbrev pub is_pending_status : VerifierStatus → Bool
is_pending_status pending = true
is_pending_status _ = false

abbrev pub is_pending_result : Result → Bool
is_pending_result (verifier v) = is_pending_status v.status
is_pending_result _ = false
