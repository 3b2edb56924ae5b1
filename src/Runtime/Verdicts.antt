-- ===== src/Runtime/Verdicts.antt =====
-- What _route_result concludes from a result that no edge takes further.
use graph_engineering.Prelude.{true, false, Option, none, some, ◌≡◌, refl, arith, ok}
use graph_engineering.Models.Common.{Error}
use graph_engineering.Models.Results.{
  Result, executor, verifier, parallel, ExecutorStatus, VerifierStatus, BranchStatus, validated,
  is_pending_result, check_error, is_error_executor, is_error_verifier, needs_error,
  is_pending_status,
}
use graph_engineering.Runtime.Conditions.{
  status_text, error_of, executor_text, verifier_text, branch_text,
}
use graph_engineering.Runtime.Routes.{verdict, verdict_of}
use graph_engineering.Runtime.Invariant.{settled, fits_verdict}

executor_fits :
    (s : ExecutorStatus) (e : Option Error)
    → check_error (is_error_executor s) e ≡ ok tt
    → fits_verdict (verdict_of (executor_text s) e) ≡ true
unfolding check_error verdict_of executor_text
executor_fits ExecutorStatus.succeeded e h = refl
executor_fits ExecutorStatus.failed e h = refl
executor_fits ExecutorStatus.error (some e) h = refl
executor_fits ExecutorStatus.error none h = cc
executor_fits ExecutorStatus.cancelled e h = refl

verifier_fits :
    (s : VerifierStatus) (e : Option Error)
    → check_error (is_error_verifier s) e ≡ ok tt
    → is_pending_status s ≡ false
    → fits_verdict (verdict_of (verifier_text s) e) ≡ true
unfolding check_error verdict_of verifier_text
verifier_fits VerifierStatus.pending e h p = cc
verifier_fits VerifierStatus.passed e h p = refl
verifier_fits VerifierStatus.failed e h p = refl
verifier_fits VerifierStatus.error (some e) h p = refl
verifier_fits VerifierStatus.error none h p = cc
verifier_fits VerifierStatus.cancelled e h p = refl

branch_fits :
    (s : BranchStatus) (e : Option Error)
    → check_error (needs_error s) e ≡ ok tt
    → fits_verdict (verdict_of (branch_text s) e) ≡ true
unfolding check_error verdict_of branch_text
branch_fits BranchStatus.succeeded e h = refl
branch_fits BranchStatus.failed e h = refl
branch_fits BranchStatus.blocked e h = refl
branch_fits BranchStatus.error (some e) h = refl
branch_fits BranchStatus.error none h = cc
branch_fits BranchStatus.cancelled e h = refl

-- A result that its validator accepts, and that is not pending, has a verdict that a report admits.
pub validated-settled :
    (result : Result)
    → validated result ≡ ok tt
    → is_pending_result result ≡ false
    → settled (some result) ≡ true
unfolding validated verdict status_text error_of
validated-settled (executor e) h p = executor_fits e.status e.error (ground arith)
validated-settled (verifier v) h p = verifier_fits v.status v.error (ground arith) p
validated-settled (parallel q) h p = branch_fits q.status q.error (ground arith)
