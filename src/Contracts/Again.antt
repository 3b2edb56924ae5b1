-- ===== src/Contracts/Again.antt =====
-- A second freeze of a draft of contracts/repository.py.
use graph_engineering.Prelude.{
  String, true, Option, none, some, ◌≡◌, refl, sym, ◌∙◌, ap, subst, arith, ok, require, required,
  lifecycle_error, key_error, find_first, find_first-snoc, find_first-update_where, ◌>>=◌,
  >>=-eq-ok, >>-eq-ok, ◌==◌, eq_iff,
}
use graph_engineering.Contracts.Repository.{
  ContractStatus, TaskContract, Digests, FrozenContract, DraftRow, RevisionRow, Tables,
  Confirmation, is_revision, find_revision, new_revision, add_frozen, insert_frozen, read_frozen,
  freeze_contract, freeze_draft, note_frozen, freeze_new, freeze_existing, freeze_found, freeze,
}
use graph_engineering.Contracts.Kept.{inserted}

pub own_revision :
    (d : Digests) (c : TaskContract) (m : String)
    → is_revision c.contract_id c.revision (new_revision d c m) ≡ true
unfolding is_revision new_revision
own_revision d c m = rw ((eq_iff c.contract_id c.contract_id).1 refl) (ground arith)

revision_added :
    (d : Digests) (c : TaskContract) (message_id draft_id : String) (t : Tables)
    → find_revision c.contract_id c.revision t ≡ none
    → find_revision c.contract_id c.revision (note_frozen draft_id (add_frozen d c message_id t))
      ≡ some (new_revision d c message_id)
unfolding find_revision note_frozen add_frozen
revision_added d c m draft_id t e =
    find_first-snoc (is_revision c.contract_id c.revision) t.revisions (new_revision d c m) e
      (own_revision d c m)

draft_found : String → Tables → Option DraftRow
draft_found draft_id t = find_first (λ row. row.draft_id == draft_id) t.drafts

-- The draft after the freeze, the row of its contract, and what _frozen reads.
record Done (d : Digests) (draft_id : String) (c : TaskContract) (f : FrozenContract) (s : Tables)
    : Type 0 where
  pub draft : DraftRow
  pub found : draft_found draft_id s ≡ some draft
  pub same : draft.contract ≡ c
  pub row : RevisionRow
  pub held : find_revision c.contract_id c.revision s ≡ some row
  pub hash : row.contract_hash ≡ d.sha256 (freeze_contract c)
  pub read : read_frozen c.contract_id c.revision s ≡ ok f

draft_kept :
    (d : Digests) (draft_id : String) (c : TaskContract) (m : String) (draft : DraftRow)
    (t u : Tables)
    → u ≡ add_frozen d c m t
    → draft_found draft_id t ≡ some draft
    → draft_found draft_id (note_frozen draft_id u)
      ≡ some (record draft { status = ContractStatus.frozen })
unfolding draft_found note_frozen freeze_draft add_frozen
draft_kept d draft_id c m draft t u kept found =
    find_first-update_where (λ row. row.draft_id == draft_id)
      (λ row. record row { status = ContractStatus.frozen }) u.drafts {x = draft} (λ row. refl)
      (rw kept found)

found-Done :
    (d : Digests) (draft_id : String) (draft : DraftRow) (message_id : String)
    (row : Option RevisionRow) (t s : Tables) (f : FrozenContract)
    → draft_found draft_id t ≡ some draft
    → find_revision draft.contract.contract_id draft.contract.revision t ≡ row
    → freeze_found d draft_id (freeze_contract draft.contract) message_id row t ≡ ok (f, s)
    → Done d draft_id draft.contract f s
unfolding freeze_found freeze_new freeze_existing freeze_contract new_revision
found-Done d draft_id draft m none t s f found held e =
    let c = freeze_contract draft.contract in
    let (u, made, rest) = >>=-eq-ok (insert_frozen d c m t) _ e in
    let (g, read, last) =
      >>=-eq-ok (read_frozen c.contract_id c.revision (note_frozen draft_id u)) _ rest in
    let (no_row, _, kept) = inserted d c m t u made in
    let given : g ≡ f = ground arith in
    let note : note_frozen draft_id u ≡ s = ground arith in
    subst (λ s. Done d draft_id draft.contract f s) note
      (record {
        draft = record draft { status = ContractStatus.frozen };
        found = draft_kept d draft_id c m draft t u kept found;
        same = refl;
        row = new_revision d c m;
        held =
            subst
              (λ u.
                find_revision c.contract_id c.revision (note_frozen draft_id u)
                ≡ some (new_revision d c m))
              (sym kept) (revision_added d c m draft_id t no_row);
        hash = refl;
        read = read ∙ ap ok given;
      })
found-Done d draft_id draft m (some row) t s f found held e =
    let c = freeze_contract draft.contract in
    let (same, rest) =
      >>-eq-ok
        (require (row.contract_hash == d.sha256 c)
          (lifecycle_error "a different frozen Contract already owns this revision"))
        (read_frozen c.contract_id c.revision t >>= λ g. ok (g, t)) e in
    let (g, read, last) =
      >>=-eq-ok (read_frozen c.contract_id c.revision t) (λ g. ok (g, t)) rest in
    let kept : t ≡ s = ground arith in
    let given : g ≡ f = ground arith in
    subst (λ s. Done d draft_id draft.contract f s) kept
      (record {
        draft = draft;
        found = found;
        same = refl;
        row = row;
        held = held;
        hash = ground (arith, eq_iff row.contract_hash (d.sha256 c));
        read = read ∙ ap ok given;
      })

again :
    (d : Digests) (draft_id : String) (c : TaskContract) (m : Confirmation) (f : FrozenContract)
    (s : Tables)
    → m.confirmed ≡ true
    → Done d draft_id c f s
    → freeze d draft_id m s ≡ ok (f, s)
unfolding freeze freeze_found freeze_existing draft_found freeze_contract
again d draft_id c m f s consent done = rw consent (
    rw (done.found) (
      rw (done.same) (
        rw (done.held) (
          rw ((eq_iff done.row.contract_hash (d.sha256 (freeze_contract c))).1 done.hash)
            (rw (done.read) refl)))))

-- After a freeze that returns, a freeze of the same draft, under any message that consents, returns
-- the same contract and the same lock and writes nothing.
pub freeze_again :
    (d : Digests) (draft_id : String) (m m' : Confirmation) (t s : Tables) (f : FrozenContract)
    → m'.confirmed ≡ true
    → freeze d draft_id m t ≡ ok (f, s)
    → freeze d draft_id m' s ≡ ok (f, s)
unfolding freeze draft_found freeze_contract
freeze_again d draft_id m m' t s f consent e =
    let (_, confirmed) =
      >>-eq-ok (require m.confirmed (lifecycle_error "explicit Human confirmation is required")) _
        e in
    let (row, found, rest) =
      >>=-eq-ok (required (draft_found draft_id t) (key_error draft_id)) _ confirmed in
    again d draft_id _ m' f s consent
      (found-Done d draft_id row m.message_id _ t s f (ground arith) refl rest)
