-- ===== src/Runtime/Invariant/Ending.antt =====
-- The invariant and _finish, _freeze_report, _pause_at_safe_point and _honor_barrier_after_result of engine.py.
use graph_engineering.Prelude.{
  ℕ, String, true, Option, none, some, ◌≡◌, refl, inl, inr, arith, Except, ok, raise, Bool-cases,
  coalesce,
}
use graph_engineering.Models.Common.{Error}
use graph_engineering.Models.Reports.{
  RunStatus, TerminalStatus, TerminalReason, FinalReport, is_terminal,
}
use graph_engineering.Runtime.Rows.{Barrier}
use graph_engineering.Runtime.State.{Run, enqueue_event}
use graph_engineering.Runtime.Finish.{
  build_report, freeze_report, terminate, finish, pause_at_safe_point, honor,
  honor_barrier_after_result, finish_uncertain_external_effect,
}
use graph_engineering.Runtime.Invariant.{Inv, fits}

-- What is left of a run when its report has been built, or could not be.
abbrev pub frozen : Except FinalReport → Run → Except (Unit {0}) × Run
frozen (ok report) r = (
  ok tt,
  enqueue_event "report.final.frozen" none none
      (record r { report = some (coalesce r.report report) }),
)
frozen (raise e) r = (raise e, r)

pub freeze_report-eq : (now : ℕ) (r : Run) → freeze_report now r ≡ frozen (build_report now r) r
unfolding freeze_report
freeze_report-eq now r = ground arith

frozen-Inv : (o : Except FinalReport) {r : Run} → Inv r → Inv (frozen o r).1
frozen-Inv (ok report) h = ground arith
frozen-Inv (raise e) h = h

pub terminate-Inv :
    (status : TerminalStatus) (reason : TerminalReason) (error : Option Error) {r : Run}
    → Inv r
    → fits status reason error ≡ true
    → Inv (terminate status reason error r)
unfolding terminate
terminate-Inv status reason error h f = ground arith

pub finish-Inv :
    (status : TerminalStatus) (reason : TerminalReason) (error : Option Error) (now : ℕ) {r : Run}
    → Inv r
    → fits status reason error ≡ true
    → Inv (finish status reason error now r).1
unfolding finish
finish-Inv status reason error now {r = r} h f = elim (Bool-cases (is_terminal r.status)) [
  | inl old ↦ rw old h
  | inr new ↦ rw new (
      rw (freeze_report-eq now (terminate status reason error r)) (
        frozen-Inv (build_report now (terminate status reason error r))
          (terminate-Inv status reason error h f)))
]

pub finish_uncertain-Inv :
    (node_id : String) (now : ℕ) {r : Run}
    → Inv r
    → Inv (finish_uncertain_external_effect node_id now r).1
unfolding finish_uncertain_external_effect
finish_uncertain-Inv node_id now h =
    finish-Inv _ _ _ now
      (record { in_phase = h.in_phase; in_budget = h.in_budget; results = h.results }) refl

pub pause_at_safe_point-Inv :
    {r : Run} → Inv r → r.barrier ≡ some Barrier.pause → Inv (pause_at_safe_point r).1
unfolding pause_at_safe_point
pause_at_safe_point-Inv {r = r} h b = ground arith

honor-Inv : (now : ℕ) (r : Run) (b : Option Barrier) → r.barrier ≡ b → Inv r → Inv (honor b now r).1
unfolding honor
honor-Inv now r (some Barrier.pause) e h = pause_at_safe_point-Inv h e
honor-Inv now r (some Barrier.interrupt) e h = finish-Inv _ _ _ now h refl
honor-Inv now r (some Barrier.cancel) e h = h
honor-Inv now r none e h = h

pub honor_barrier-Inv : (now : ℕ) {r : Run} → Inv r → Inv (honor_barrier_after_result now r).1
unfolding honor_barrier_after_result
honor_barrier-Inv now {r = r} h = honor-Inv now r r.barrier refl h

-- A requested pause has its barrier.
pub requested_pause :
    {r : Run} → Inv r → r.status ≡ RunStatus.pause_requested → r.barrier ≡ some Barrier.pause
requested_pause {r = r} h e = ground arith
