-- ===== src/Runtime/Races.antt =====
-- An interrupt between the reading of the status by _run of engine.py and its _pause_at_safe_point.
use graph_engineering.Prelude.{none, some, ◌≡◌, refl, arith, ok, inl, inr}
use graph_engineering.Models.Control.{
  StateChangeControlIntent, ControlOutcome, resume, interrupt, state_change,
}
use graph_engineering.Models.Reports.{RunStatus}
use graph_engineering.Runtime.Rows.{Barrier}
use graph_engineering.Runtime.State.{Run}
use graph_engineering.Runtime.Finish.{pause_at_safe_point}
use graph_engineering.Runtime.Control.{VerifierControl, control}
use graph_engineering.Runtime.Controls.{Allowed, control_changes}

applied-Allowed :
    (v : VerifierControl) (i : StateChangeControlIntent) (r s : Run)
    → control v (state_change i) r ≡ (ok ControlOutcome.applied, s)
    → Allowed i.action r.status s.status s.barrier
applied-Allowed v i r s h = elim (control_changes v i r s ControlOutcome.applied h).1 [
  | inl (_, may) ↦ may
  | inr (refused, _, _, _) ↦ absurd (ground arith)
]

-- If an interrupt is applied and _pause_at_safe_point follows, as where _run has read the status before
-- the interrupt, the run is left paused with the barrier of the interrupt, and a resume that is
-- applied then leaves it running with no barrier: the interrupt is lost.
pub interrupt_lost :
    (v v' : VerifierControl) (i j : StateChangeControlIntent) (r s w : Run)
    → i.action ≡ interrupt
    → j.action ≡ resume
    → control v (state_change i) r ≡ (ok ControlOutcome.applied, s)
    → control v' (state_change j) (pause_at_safe_point s).1 ≡ (ok ControlOutcome.applied, w)
    → let u = (pause_at_safe_point s).1 in
      (u.status ≡ RunStatus.paused)
      × (u.barrier ≡ some Barrier.interrupt)
      × (w.status ≡ RunStatus.running)
      × (w.barrier ≡ none)
unfolding pause_at_safe_point
interrupt_lost v v' i j r s w is_interrupt is_resume first second =
    let a = applied-Allowed v i r s first in
    let b = applied-Allowed v' j _ w second in
    let quiescing : s.status ≡ RunStatus.quiescing = ground arith in
    let barrier : s.barrier ≡ some Barrier.interrupt = ground arith in
    (rw quiescing refl, rw quiescing barrier, ground arith, ground arith)
