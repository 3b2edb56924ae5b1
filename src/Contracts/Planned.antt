-- ===== src/Contracts/Planned.antt =====
-- The runs that contracts/runs.py plans for the contracts of contracts/repository.py.
use graph_engineering.Prelude.{
  ℕ, String, true, Option, none, some, [], ◌≡◌, refl, sym, ◌∙◌, ap, subst, arith, ok, require,
  required, lifecycle_error, key_error, value_error, find_first-snoc, >>=-eq-ok, >>-eq-ok, eq_iff,
}
use graph_engineering.Models.Common.{RestartFrom, relationship_is_not_self_referential}
use graph_engineering.Models.Graph.{ExecutionGraph}
use graph_engineering.Contracts.Repository.{
  Digests, FrozenContract, Tables, find_revision, read_frozen, new_lock,
}
use graph_engineering.Contracts.Kept.{Calls}
use graph_engineering.Contracts.Locked.{read_frozen_returns}
use graph_engineering.Contracts.Runs.{
  PlannedRun, PlannedRow, Plans, Planner, lock_matches, planned_id, is_planned, find_planned,
  check_source, new_planned, insert_planned, write_planned, related, planned_run, create, get,
}

planned_found :
    (row : PlannedRow) (t : Plans)
    → find_planned row.run_id t ≡ none
    → find_planned row.run_id (insert_planned row t) ≡ some row
unfolding find_planned insert_planned is_planned
planned_found row t e =
    find_first-snoc (is_planned row.run_id) t.planned row e ((eq_iff row.run_id row.run_id).1 refl)

written :
    (p : Planner) (id project_id : String) (f : FrozenContract) (graph : ExecutionGraph)
    (source : Option String) (restart_from : Option RestartFrom) (t s : Plans)
    → find_planned id t ≡ none
    → write_planned
        (new_planned p id project_id f.contract graph source restart_from)
        (find_planned id t)
        t
      ≡ ok s
    → find_planned id s ≡ some (new_planned p id project_id f.contract graph source restart_from)
unfolding write_planned new_planned
written p id project_id f graph source restart_from t s fresh e =
    let row = new_planned p id project_id f.contract graph source restart_from in
    let same : insert_planned row t ≡ s = ground arith in
    subst (λ s. find_planned id s ≡ some row) same (planned_found row t fresh)

-- What create has done where it returns.
created :
    (p : Planner) (project_id : String) (f : FrozenContract) (source : Option String)
    (restart_from : Option RestartFrom) (run_id : Option String) (t s : Plans) (r : PlannedRun)
    → create p project_id f source restart_from run_id t ≡ ok (r, s)
    → (graph : ExecutionGraph) × (relationship_is_not_self_referential
          (related (planned_id p f.contract run_id) source source)
        ≡ ok tt)
      × (write_planned
            (new_planned p
              (planned_id p f.contract run_id)
              project_id
              f.contract
              graph
              source
              restart_from)
            (find_planned (planned_id p f.contract run_id) t)
            t
          ≡ ok s)
      × (planned_run
            (planned_id p f.contract run_id)
            project_id
            graph
            (related (planned_id p f.contract run_id) source source)
            restart_from
            "prepared"
          ≡ r)
unfolding create planned_run
created p project_id f source restart_from run_id t s r e =
    let id = planned_id p f.contract run_id in
    let (_, matched) =
      >>-eq-ok
        (require (lock_matches p.sha256 f)
          (value_error "acceptance lock does not match the frozen Contract"))
        _ e in
    let (graph, _, compiled) = >>=-eq-ok (p.compile f.contract) _ matched in
    let (valid, related_ok) =
      >>-eq-ok (relationship_is_not_self_referential (related id source source)) _ compiled in
    let (_, sourced) = >>-eq-ok (check_source source t) _ related_ok in
    let (u, made, last) =
      >>=-eq-ok
        (write_planned (new_planned p id project_id f.contract graph source restart_from)
          (find_planned id t) t)
        _ sourced in
    let left : u ≡ s = ground arith in (graph, valid, made ∙ ap ok left, ground arith)

-- If create returns, for a run that was not planned, then get returns the same run from the table
-- that create leaves.
pub create-get :
    (p : Planner) (project_id : String) (f : FrozenContract) (source : Option String)
    (restart_from : Option RestartFrom) (run_id : Option String) (t s : Plans) (r : PlannedRun)
    → find_planned (planned_id p f.contract run_id) t ≡ none
    → create p project_id f source restart_from run_id t ≡ ok (r, s)
    → get r.run_id s ≡ ok r
unfolding get new_planned planned_run
create-get p project_id f source restart_from run_id t s r fresh e =
    let (graph, valid, made, same) = created p project_id f source restart_from run_id t s r e in
    let id = planned_id p f.contract run_id in
    subst (λ r. get r.run_id s ≡ ok r) same
      (rw (written p id project_id f graph source restart_from t s fresh made) (rw valid refl))

-- If create returns, for a run that was planned before, then it writes nothing, and it returns a run
-- of the project, the source and the checkpoint of this call; where get returns, it returns those of
-- the row.
pub create_planned :
    (p : Planner) (project_id : String) (f : FrozenContract) (source : Option String)
    (restart_from : Option RestartFrom) (run_id : Option String) (t s : Plans) (r g : PlannedRun)
    (row : PlannedRow)
    → find_planned (planned_id p f.contract run_id) t ≡ some row
    → create p project_id f source restart_from run_id t ≡ ok (r, s)
    → get r.run_id s ≡ ok g
    → (s ≡ t)
      × ((r.project_id ≡ project_id)
          × (r.relationship.parent_run_id ≡ source)
          × (r.restart_from ≡ restart_from))
      × ((g.project_id ≡ row.project_id)
          × (g.relationship.parent_run_id ≡ row.parent_run_id)
          × (g.restart_from ≡ row.restart_from))
unfolding get planned_run write_planned
create_planned p project_id f source restart_from run_id t s r g row found e got =
    let (graph, _, made, same) = created p project_id f source restart_from run_id t s r e in
    let kept : s ≡ t = ground arith in
    let there : find_planned r.run_id s ≡ some row =
      rw kept (subst (λ i. find_planned i t ≡ some row) (ap (λ r. r.run_id) same) found) in
    let (row', found', rest) =
      >>=-eq-ok (required (find_planned r.run_id s) (key_error r.run_id)) _ got in
    let (_, given) =
      >>-eq-ok
        (relationship_is_not_self_referential
          (related row'.run_id row'.parent_run_id row'.supersedes_run_id))
        _ rest in
    let one : row' ≡ row = ground arith in
    let read : planned_run row'.run_id row'.project_id row'.graph
          (related row'.run_id row'.parent_run_id row'.supersedes_run_id) row'.restart_from
          row'.status
        ≡ g =
      ground arith in
    (
      kept,
      (
        sym (ap (λ r. r.project_id) same),
        sym (ap (λ r. r.relationship.parent_run_id) same),
        sym (ap (λ r. r.restart_from) same),
      ),
      (
        sym (ap (λ g. g.project_id) read) ∙ ap (λ x. x.project_id) one,
        sym (ap (λ g. g.relationship.parent_run_id) read) ∙ ap (λ x. x.parent_run_id) one,
        sym (ap (λ g. g.restart_from) read) ∙ ap (λ x. x.restart_from) one,
      ),
    )

-- From tables with no revision and no lock, whatever calls of the repository follow, what _frozen
-- returns has a lock that matches its contract, as create asks of it.
pub read_frozen-lock_matches :
    (d : Digests) (id : String) (n : ℕ) (t s : Tables) (f : FrozenContract)
    → Calls d t s
    → t.revisions ≡ []
    → t.locks ≡ []
    → read_frozen id n s ≡ ok f
    → lock_matches d.sha256 f ≡ true
unfolding read_frozen lock_matches new_lock
read_frozen-lock_matches d id n t s f calls no_row no_lock e =
    let (row, found, _) =
      >>=-eq-ok (required (find_revision id n s) (lifecycle_error "frozen Contract is incomplete"))
        _ e in
    let (read, frozen) =
      read_frozen_returns d id n t s {row = row} calls no_row no_lock (ground arith) in
    let made : FrozenContract = record {
      contract = row.contract;
      acceptance_lock = new_lock d row.contract row.confirmation_message_id;
    } in
    let same : made ≡ f = ground arith in
    subst (λ f. lock_matches d.sha256 f ≡ true) same
      (rw ((eq_iff row.contract.contract_id row.contract.contract_id).1 refl)
        (rw ((eq_iff (d.sha256 row.contract) (d.sha256 row.contract)).1 refl) (ground arith)))
