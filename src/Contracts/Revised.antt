-- ===== src/Contracts/Revised.antt =====
-- What apply_delta of contracts/repository.py returns.
use graph_engineering.Prelude.{
  ◌+◌, String, not, some, [], ◌≡◌, sym, ◌∙◌, ap, arith, ok, require, required, lifecycle_error,
  integrity_error, find_first-snoc, any, >>=-eq-ok, >>-eq-ok,
}
use graph_engineering.Contracts.Repository.{
  ContractStatus, TaskContract, Digests, FrozenContract, ContractDelta, Tables, Confirmation,
  is_revision, find_revision, new_revision, add_frozen, insert_frozen, read_frozen, revise,
  note_delta, same_delta, insert_revised, apply_delta,
}
use graph_engineering.Contracts.Kept.{Calls, inserted}
use graph_engineering.Contracts.Locked.{read_frozen_returns}
use graph_engineering.Contracts.Again.{own_revision}

revised_held :
    (d : Digests) (delta : ContractDelta) (c : TaskContract) (message_id : String) (t u : Tables)
    → insert_frozen d c message_id t ≡ ok u
    → find_revision c.contract_id c.revision (note_delta delta c.revision message_id u)
      ≡ some (new_revision d c message_id)
unfolding find_revision note_delta add_frozen
revised_held d delta c m t u e =
    let (no_row, _, made) = inserted d c m t u e in
    rw made (
      find_first-snoc (is_revision c.contract_id c.revision) t.revisions (new_revision d c m) no_row
        (own_revision d c m))

revised_contract :
    (d : Digests) (delta : ContractDelta) (c : TaskContract) (message_id : String) (t s : Tables)
    (f : FrozenContract)
    → insert_revised d delta c message_id t ≡ ok (f, s)
    → f.contract ≡ c
unfolding insert_revised read_frozen new_revision
revised_contract d delta c m t s f e =
    let (u, made, rest) = >>=-eq-ok (insert_frozen d c m t) _ e in
    let (_, fresh) =
      >>-eq-ok
        (require (not (any (same_delta delta c.revision) u.deltas))
          (integrity_error "contract_deltas"))
        _ rest in
    let (g, read, last) =
      >>=-eq-ok (read_frozen c.contract_id c.revision (note_delta delta c.revision m u)) _ fresh in
    let (row, found, found') =
      >>=-eq-ok
        (required (find_revision c.contract_id c.revision (note_delta delta c.revision m u))
          (lifecycle_error "frozen Contract is incomplete"))
        _ read in
    let held = revised_held d delta c m t u made in
    let one : new_revision d c m ≡ row = ground arith in
    let given : g ≡ f = ground arith in
    let kept : g.contract ≡ row.contract = ground arith in
    ap (λ f. f.contract) (sym given) ∙ kept ∙ ap (λ row. row.contract) (sym one)

-- From tables with no revision and no lock, whatever calls follow, if apply_delta returns, then its
-- contract is frozen, has the id of the delta, the next number and the new description, and
-- supersedes the revision that the delta names.
pub apply_delta_revises :
    (d : Digests) (delta : ContractDelta) (m : Confirmation) (t s u : Tables) (f : FrozenContract)
    → Calls d t s
    → t.revisions ≡ []
    → t.locks ≡ []
    → apply_delta d delta m s ≡ ok (f, u)
    → (f.contract.status ≡ ContractStatus.frozen)
      × (f.contract.contract_id ≡ delta.contract_id)
      × (f.contract.revision ≡ delta.source_revision + 1)
      × (f.contract.description ≡ delta.replacement_description)
      × (f.contract.supersedes
          ≡ some (record { contract_id = delta.contract_id; revision = delta.source_revision }))
unfolding apply_delta revise
apply_delta_revises d delta m t s u f calls no_row no_lock e =
    let (_, confirmed) =
      >>-eq-ok (require m.confirmed (lifecycle_error "explicit Human confirmation is required")) _
        e in
    let (row, found, rest) =
      >>=-eq-ok
        (required (find_revision delta.contract_id delta.source_revision s)
          (lifecycle_error "source Contract revision does not exist"))
        _ confirmed in
    let made : insert_revised d delta (revise row.contract delta) m.message_id s ≡ ok (f, u) =
      ground arith in
    let same = revised_contract d delta (revise row.contract delta) m.message_id s u f made in
    let (_, (owner, number, _, _)) =
      read_frozen_returns d delta.contract_id delta.source_revision t s {row = row} calls no_row
        no_lock (ground arith) in
    (
      ap (λ c. c.status) same,
      ap (λ c. c.contract_id) same ∙ owner,
      ap (λ c. c.revision) same ∙ ap (λ n. n + 1) number,
      ap (λ c. c.description) same,
      ap (λ c. c.supersedes) same ∙ ground arith,
    )
