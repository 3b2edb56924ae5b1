-- ===== src/Contracts/Kept.antt =====
-- The tables of contracts/repository.py after any sequence of calls of the repository.
use graph_engineering.Prelude.{
  ℕ, String, Option, none, some, [], ◌∷◌, ◌++◌, ◌≡◌, refl, sym, ◌∙◌, ap, ◌⊎◌, inl, inr, arith, ok,
  require, required, lifecycle_error, key_error, ◌>>=◌, ◌==◌, find_first, find_first-append,
  >>=-eq-ok, >>-eq-ok,
}
use graph_engineering.Contracts.Repository.{
  ContractStatus, TaskContract, Digests, FrozenContract, ContractDelta, RevisionRow, Tables,
  Confirmation, is_draft, stage, is_revision, find_revision, find_lock, new_revision, new_lock,
  add_frozen, insert_frozen, read_frozen, freeze_contract, note_frozen, freeze_new, freeze_existing,
  freeze_found, freeze, revise, note_delta, insert_revised, apply_delta,
}

pub data Call (d : Digests) (t : Tables) : Tables → Type 0 where
  stages :
      {s : Tables} (conversation_id : String) (c : TaskContract) (id : String)
      → stage d conversation_id c t ≡ ok (id, s)
      → Call d t s
  freezes :
      {s : Tables} (draft_id : String) (m : Confirmation) (f : FrozenContract)
      → freeze d draft_id m t ≡ ok (f, s)
      → Call d t s
  applies :
      {s : Tables} (delta : ContractDelta) (m : Confirmation) (f : FrozenContract)
      → apply_delta d delta m t ≡ ok (f, s)
      → Call d t s

pub data Calls (d : Digests) (t : Tables) : Tables → Type 0 where
  here : Calls d t t
  next : {s u : Tables} → Calls d t s → Call d s u → Calls d t u

-- What a call does to the revisions and the locks: nothing, or it adds one of each.
pub record Added (d : Digests) (t s : Tables) : Type 0 where
  pub contract : TaskContract
  pub message_id : String
  pub is_frozen : contract.status ≡ ContractStatus.frozen
  pub no_revision : find_revision contract.contract_id contract.revision t ≡ none
  pub no_lock : find_lock contract.contract_id contract.revision t ≡ none
  pub revisions : s.revisions ≡ t.revisions ++ new_revision d contract message_id ∷ []
  pub locks : s.locks ≡ t.locks ++ new_lock d contract message_id ∷ []

abbrev pub Grown : Digests → Tables → Tables → Type 0
Grown d t s = ((s.revisions ≡ t.revisions) × (s.locks ≡ t.locks)) ⊎ Added d t s

pub inserted :
    (d : Digests) (c : TaskContract) (message_id : String) (t u : Tables)
    → insert_frozen d c message_id t ≡ ok u
    → (find_revision c.contract_id c.revision t ≡ none)
      × (find_lock c.contract_id c.revision t ≡ none)
      × (u ≡ add_frozen d c message_id t)
unfolding insert_frozen
inserted d c message_id t u e = (ground arith, ground arith, ground arith)

added :
    (d : Digests) (c : TaskContract) (message_id : String) (t u s : Tables)
    → c.status ≡ ContractStatus.frozen
    → insert_frozen d c message_id t ≡ ok u
    → s.revisions ≡ u.revisions
    → s.locks ≡ u.locks
    → Added d t s
unfolding add_frozen
added d c message_id t u s frozen e r l =
    let (no_row, no_lock, made) = inserted d c message_id t u e in
    record {
      contract = c;
      message_id = message_id;
      is_frozen = frozen;
      no_revision = no_row;
      no_lock = no_lock;
      revisions = r ∙ ap (λ x. x.revisions) made;
      locks = l ∙ ap (λ x. x.locks) made;
    }

found_grows :
    (d : Digests) (draft_id : String) (c : TaskContract) (message_id : String)
    (row : Option RevisionRow) (t s : Tables) (f : FrozenContract)
    → c.status ≡ ContractStatus.frozen
    → freeze_found d draft_id c message_id row t ≡ ok (f, s)
    → Grown d t s
unfolding freeze_found freeze_new freeze_existing note_frozen
found_grows d draft_id c message_id none t s f frozen e =
    let (u, made, rest) = >>=-eq-ok (insert_frozen d c message_id t) _ e in
    let (g, _, last) =
      >>=-eq-ok (read_frozen c.contract_id c.revision (note_frozen draft_id u)) _ rest in
    let same : note_frozen draft_id u ≡ s = ground arith in
    inr (
      added d c message_id t u s frozen made (sym (ap (λ x. x.revisions) same))
        (sym (ap (λ x. x.locks) same)))
found_grows d draft_id c message_id (some row) t s f frozen e =
    let (_, rest) =
      >>-eq-ok
        (require (row.contract_hash == d.sha256 c)
          (lifecycle_error "a different frozen Contract already owns this revision"))
        (read_frozen c.contract_id c.revision t >>= λ g. ok (g, t)) e in
    let (g, _, last) = >>=-eq-ok (read_frozen c.contract_id c.revision t) (λ g. ok (g, t)) rest in
    let same : t ≡ s = ground arith in
    inl (sym (ap (λ x. x.revisions) same), sym (ap (λ x. x.locks) same))

freeze_grows :
    (d : Digests) (draft_id : String) (m : Confirmation) (t s : Tables) (f : FrozenContract)
    → freeze d draft_id m t ≡ ok (f, s)
    → Grown d t s
unfolding freeze freeze_contract
freeze_grows d draft_id m t s f e =
    let (_, rest) =
      >>-eq-ok (require m.confirmed (lifecycle_error "explicit Human confirmation is required")) _
        e in
    let (row, _, last) =
      >>=-eq-ok
        (required (find_first (λ row. row.draft_id == draft_id) t.drafts) (key_error draft_id)) _
        rest in
    found_grows d draft_id (freeze_contract row.contract) m.message_id _ t s f refl last

revised_grows :
    (d : Digests) (delta : ContractDelta) (c : TaskContract) (message_id : String) (t s : Tables)
    (f : FrozenContract)
    → c.status ≡ ContractStatus.frozen
    → insert_revised d delta c message_id t ≡ ok (f, s)
    → Grown d t s
unfolding insert_revised note_delta
revised_grows d delta c message_id t s f frozen e =
    let (u, made, _) = >>=-eq-ok (insert_frozen d c message_id t) _ e in
    inr (added d c message_id t u s frozen made (ground arith) (ground arith))

apply_grows :
    (d : Digests) (delta : ContractDelta) (m : Confirmation) (t s : Tables) (f : FrozenContract)
    → apply_delta d delta m t ≡ ok (f, s)
    → Grown d t s
unfolding apply_delta revise
apply_grows d delta m t s f e =
    let (_, confirmed) =
      >>-eq-ok (require m.confirmed (lifecycle_error "explicit Human confirmation is required")) _
        e in
    let (row, _, found) =
      >>=-eq-ok
        (required (find_revision delta.contract_id delta.source_revision t)
          (lifecycle_error "source Contract revision does not exist"))
        _ confirmed in
    let made : insert_revised d delta (revise row.contract delta) m.message_id t ≡ ok (f, s) =
      ground arith in
    revised_grows d delta (revise row.contract delta) m.message_id t s f refl made

pub Call-Grown : (d : Digests) (t s : Tables) → Call d t s → Grown d t s
unfolding stage
Call-Grown d t s (stages conversation_id c id e) =
    let (_, rest) =
      >>-eq-ok (require (is_draft c.status) (lifecycle_error "only a draft Contract can be staged"))
        _ e in
    inl (ground arith, ground arith)
Call-Grown d t s (freezes draft_id m f e) = freeze_grows d draft_id m t s f e
Call-Grown d t s (applies delta m f e) = apply_grows d delta m t s f e

call_keeps :
    (d : Digests) (id : String) (n : ℕ) (t s : Tables) {row : RevisionRow}
    → Grown d t s
    → find_revision id n t ≡ some row
    → find_revision id n s ≡ some row
unfolding find_revision
call_keeps d id n t s (inl (same, _)) found = rw same found
call_keeps d id n t s (inr a) found =
    rw (a.revisions) (find_first-append (is_revision id n) t.revisions _ found)

-- Whatever calls follow, a revision stays as it was frozen: its contract, its hash and its
-- confirmation.
pub contract_stays :
    (d : Digests) (id : String) (n : ℕ) (t s : Tables) {row : RevisionRow}
    → Calls d t s
    → find_revision id n t ≡ some row
    → find_revision id n s ≡ some row
contract_stays d id n t _ here found = found
contract_stays d id n t s (next {s = u} calls call) found =
    call_keeps d id n u s (Call-Grown d u s call) (contract_stays d id n t u calls found)
