-- ===== src/Runtime/Invariant/Steps.antt =====
-- How the invariant passes through the ends of transactions and from one method to the next.
use graph_engineering.Prelude.{String, Option, ◌≡◌, subst, arith, Except, ok, raise}
use graph_engineering.Runtime.Rows.{AttemptId}
use graph_engineering.Runtime.State.{Run, Exec, seal, continue}
use graph_engineering.Runtime.Invariant.{Inv}

pub seal-Inv :
    (reason event : String) (node_id : Option String) (id : Option AttemptId) {r : Run}
    → Inv r
    → Inv (seal reason event node_id id r)
seal-Inv reason event node_id id h = record {
  in_phase = h.in_phase;
  in_budget = h.in_budget;
  results = h.results;
}

-- The end of a transaction that seals `r` and commits.
pub committed-Inv :
    (reason event : String) (node_id : Option String) (id : Option AttemptId) {r r' : Run}
    {A : Type 0} (a b : A)
    → ◌≡◌ {A = Except (A × Run)} (ok (b, seal reason event node_id id r)) (ok (a, r'))
    → Inv r
    → Inv r'
committed-Inv reason event node_id id {r = r} {r' = r'} a b e h =
    let same : seal reason event node_id id r ≡ r' = ground arith in
    subst Inv same (seal-Inv reason event node_id id h)

pub continue-Inv :
    {A B : Type 0} (result : Except A) {r : Run} (f : A → Exec B)
    → Inv r
    → ((a : A) → Inv (f a r).1)
    → Inv (continue result r f).1
continue-Inv (ok a) f h k = k a
continue-Inv (raise e) f h k = h
