-- ===== src/Runtime/Asides.antt =====
-- Lemmas on _cancel_external_handles of engine.py and _cancel_branches of runtime/parallel.py.
use Prim.Native.String.{◌++◌ as text_append}
use graph_engineering.Prelude.{
  String, Bool, true, false, Option, none, some, List, [], ◌∷◌, ◌≡◌, refl, ap, ◌∙◌, any,
  update_where, if◌then◌else◌,
}
use graph_engineering.Runtime.Rows.{HandleRow}
use graph_engineering.Runtime.State.{Run, checkpoint}
use graph_engineering.Runtime.Branches.{cancel_branches, cancel_pending, cancel_row, cancellable}
use graph_engineering.Runtime.Control.{
  VerifierControl, checkpointed_handles, cancel_handle, cancel_rows, cancel_external_handles,
}

-- A step that writes only rows of branches and of external handles, checkpoints and events.
abbrev pub Aside : Run → Run → Type 0
Aside r s = s ≡ record r {
  branches = s.branches;
  handles = s.handles;
  checkpoints = s.checkpoints;
  outbox = s.outbox;
}

both : (r s t : Run) → Aside r s → Aside s t → Aside r t
both r s t h k =
    k
    ∙ ap {A = Run} {B = Run}
        (λ x. record x {
          branches = t.branches;
          handles = t.handles;
          checkpoints = t.checkpoints;
          outbox = t.outbox;
        })
        h

cancel_handle-Aside :
    (v : VerifierControl) (row : HandleRow) (handle : Option String) (r : Run)
    → Aside r (cancel_handle v row handle r)
unfolding cancel_handle
cancel_handle-Aside v row none r = refl
cancel_handle-Aside v row (some handle) r = refl

pub cancel_rows-Aside :
    (v : VerifierControl) (rows : List HandleRow) (r : Run) → Aside r (cancel_rows v rows r)
unfolding cancel_rows
cancel_rows-Aside v [] r = refl
cancel_rows-Aside v (row ∷ rows) r =
    let s = cancel_handle v row row.handle r in
    both r s (cancel_rows v rows s) (cancel_handle-Aside v row row.handle r)
      (cancel_rows-Aside v rows s)

pub cancel_handles-Aside : (v : VerifierControl) (r : Run) → Aside r (cancel_external_handles v r)
unfolding cancel_external_handles
cancel_handles-Aside v r = cancel_rows-Aside v (checkpointed_handles r) r

pub cancel_branches-Aside :
    (reason : String) (active : Bool) (r : Run) → Aside r (cancel_branches reason active r)
unfolding cancel_branches
cancel_branches-Aside reason active r =
    elim (any (λ b. cancellable active b.status) r.branches)
      as (λ x. Aside r (
        if x
        then checkpoint (text_append "parallel_" (text_append reason "_barrier")) (record r {
          branches = update_where (λ b. cancellable active b.status) (cancel_row reason) r.branches;
        })
        else r)) [ true ↦ refl | false ↦ refl ]

pub interrupted-Aside :
    (v : VerifierControl) (r : Run)
    → Aside r (cancel_external_handles v (cancel_pending "interrupt" r))
interrupted-Aside v r =
    both r (cancel_pending "interrupt" r) _ (cancel_branches-Aside "interrupt" false r)
      (cancel_handles-Aside v (cancel_pending "interrupt" r))
