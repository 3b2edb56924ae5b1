-- ===== src/Contracts/Repository.antt =====
-- ContractRepository of contracts/repository.py, with the part of TaskContract of models/contract.py
-- that it reads. A method that raises writes nothing.
use graph_engineering.Prelude.{
  ℕ, ◌+◌, String, Bool, true, false, not, ◌&&◌, ◌||◌, Option, none, some, List, [], ◌∷◌, ◌++◌, map,
  Except, Checked, ok, require, required, lifecycle_error, key_error, integrity_error, value_error,
  ◌>>=◌, ◌>>◌, ◌==◌, eqb, leb, ltb, is_none, if◌then◌else◌, find_first, any, update_where,
  sorted_set,
}

-- models/contract.py

pub data ContractStatus : Type 0 where
  draft frozen : ContractStatus

-- VerifierRequirement; `document` is the JSON of the whole.
pub record Requirement : Type 0 where
  pub verifier_id : String
  pub document : String

pub record ContractRef : Type 0 where
  pub contract_id : String
  pub revision : ℕ

-- TaskContract; `document` is the JSON of the fields that no method here reads or changes.
pub record TaskContract : Type 0 where
  pub contract_id : String
  pub revision : ℕ
  pub status : ContractStatus
  pub supersedes : Option ContractRef
  pub description : String
  pub verifiers : List Requirement
  pub document : String

check_supersedes : String → ℕ → Option ContractRef → Checked
check_supersedes contract_id revision none =
    require (not (ltb 1 revision))
      (value_error "revision greater than 1 must reference the superseded revision")
check_supersedes contract_id revision (some r) =
    require (not (eqb revision 1))
      (value_error "revision 1 must not supersede another contract revision")
    >> (require (not (ltb 1 revision) || r.contract_id == contract_id)
          (value_error "supersedes.contract_id must match contract_id")
        >> require (not (ltb 1 revision && leb revision r.revision))
            (value_error "supersedes.revision must be lower than revision"))

-- revision_is_append_only, as to the revisions.
unfoldable pub revision_is_append_only : TaskContract → Checked
unfolding check_supersedes
revision_is_append_only c = check_supersedes c.contract_id c.revision c.supersedes

-- The digest of the canonical JSON of a contract, that of a verifier, and the texts of the ids.
pub record Digests : Type 0 where
  pub sha256 : TaskContract → String
  pub verifier_sha256 : Requirement → String
  pub draft_id : TaskContract → String
  pub lock_id : TaskContract → String

-- contracts/models.py

pub record AcceptanceLock : Type 0 where
  pub lock_id : String
  pub contract_id : String
  pub contract_revision : ℕ
  pub contract_hash : String
  pub verifier_hashes : List (String × String)
  pub confirmation_message_id : String

pub record FrozenContract : Type 0 where
  pub contract : TaskContract
  pub acceptance_lock : AcceptanceLock

pub record ContractDelta : Type 0 where
  pub delta_id : String
  pub contract_id : String
  pub source_revision : ℕ
  pub replacement_description : String

-- Tables contract_drafts, contract_revisions and contract_deltas; a staged draft has the status draft.

pub record DraftRow : Type 0 where
  pub draft_id : String
  pub conversation_id : String
  pub contract : TaskContract
  pub contract_hash : String
  pub status : ContractStatus

pub record RevisionRow : Type 0 where
  pub contract_id : String
  pub revision : ℕ
  pub contract : TaskContract
  pub contract_hash : String
  pub confirmation_message_id : String

pub record DeltaRow : Type 0 where
  pub delta : ContractDelta
  pub new_revision : ℕ
  pub confirmation_message_id : String

-- The tables, and the types of the events, the latest first.
pub record Tables : Type 0 where
  pub drafts : List DraftRow
  pub revisions : List RevisionRow
  pub locks : List AcceptanceLock
  pub deltas : List DeltaRow
  pub events : List String

-- HumanMessage, with whether _confirmed finds a word of consent in its content.
pub record Confirmation : Type 0 where
  pub message_id : String
  pub confirmed : Bool

abbrev pub Write : Type 0 → Type 0
Write A = Tables → Except (A × Tables)

abbrev pub is_draft : ContractStatus → Bool
is_draft ContractStatus.draft = true
is_draft ContractStatus.frozen = false

same_draft : String → TaskContract → String → DraftRow → Bool
same_draft draft_id c digest row =
    row.draft_id == draft_id
    || row.contract.contract_id == c.contract_id
      && eqb row.contract.revision c.revision
      && row.contract_hash == digest

-- INSERT OR IGNORE
add_draft : Digests → String → TaskContract → List DraftRow → List DraftRow
unfolding same_draft
add_draft d conversation_id c rows =
    if any (same_draft (d.draft_id c) c (d.sha256 c)) rows
    then rows
    else rows
      ++ record {
        draft_id = d.draft_id c;
        conversation_id = conversation_id;
        contract = c;
        contract_hash = d.sha256 c;
        status = ContractStatus.draft;
      }
        ∷ []

unfoldable pub stage : Digests → String → TaskContract → Write String
unfolding add_draft
stage d conversation_id c t = do
  require (is_draft c.status) (lifecycle_error "only a draft Contract can be staged")
  ok (
    d.draft_id c,
    record t {
      drafts = add_draft d conversation_id c t.drafts;
      events = "contract.draft.staged" ∷ t.events;
    },
  )

-- WHERE contract_id = ? AND revision = ?
unfoldable pub is_revision : String → ℕ → RevisionRow → Bool
is_revision contract_id revision row = row.contract_id == contract_id && eqb row.revision revision

unfoldable pub is_lock : String → ℕ → AcceptanceLock → Bool
is_lock contract_id revision l = l.contract_id == contract_id && eqb l.contract_revision revision

unfoldable pub find_revision : String → ℕ → Tables → Option RevisionRow
unfolding is_revision
find_revision contract_id revision t = find_first (is_revision contract_id revision) t.revisions

unfoldable pub find_lock : String → ℕ → Tables → Option AcceptanceLock
unfolding is_lock
find_lock contract_id revision t = find_first (is_lock contract_id revision) t.locks

-- The hash of the last verifier of an id.
last_hash : Digests → String → List Requirement → String → String
last_hash d id [] found = found
last_hash d id (v ∷ vs) found =
    last_hash d id vs (if v.verifier_id == id then d.verifier_sha256 v else found)

-- A dictionary from the ids of the verifiers to their hashes, in the order of the ids.
hash_verifiers : Digests → List Requirement → List (String × String)
unfolding last_hash
hash_verifiers d vs =
    map (λ id. (id, last_hash d id vs "")) (sorted_set (map (λ v. v.verifier_id) vs))

unfoldable pub new_revision : Digests → TaskContract → String → RevisionRow
new_revision d c message_id = record {
  contract_id = c.contract_id;
  revision = c.revision;
  contract = c;
  contract_hash = d.sha256 c;
  confirmation_message_id = message_id;
}

unfoldable pub new_lock : Digests → TaskContract → String → AcceptanceLock
unfolding hash_verifiers
new_lock d c message_id = record {
  lock_id = d.lock_id c;
  contract_id = c.contract_id;
  contract_revision = c.revision;
  contract_hash = d.sha256 c;
  verifier_hashes = hash_verifiers d c.verifiers;
  confirmation_message_id = message_id;
}

unfoldable pub add_frozen : Digests → TaskContract → String → Tables → Tables
unfolding new_revision new_lock
add_frozen d c message_id t = record t {
  revisions = t.revisions ++ new_revision d c message_id ∷ [];
  locks = t.locks ++ new_lock d c message_id ∷ [];
}

-- _insert_frozen, with the keys of the two tables.
unfoldable pub insert_frozen : Digests → TaskContract → String → Tables → Except Tables
unfolding find_revision find_lock add_frozen
insert_frozen d c message_id t = do
  require (is_none (find_revision c.contract_id c.revision t))
      (integrity_error "contract_revisions.contract_id, contract_revisions.revision")
  require (not (any (λ row. row.contract_hash == d.sha256 c) t.revisions))
      (integrity_error "contract_revisions.contract_hash")
  require (not (any (λ l. l.lock_id == d.lock_id c) t.locks))
      (integrity_error "acceptance_locks.lock_id")
  require (is_none (find_lock c.contract_id c.revision t))
      (integrity_error "acceptance_locks.contract_id, acceptance_locks.contract_revision")
  ok (add_frozen d c message_id t)

-- _frozen
unfoldable pub read_frozen : String → ℕ → Tables → Except FrozenContract
unfolding find_revision find_lock
read_frozen contract_id revision t = do
  row ←
      required (find_revision contract_id revision t)
        (lifecycle_error "frozen Contract is incomplete")
  l ← required (find_lock contract_id revision t) (lifecycle_error "frozen Contract is incomplete")
  ok (record { contract = row.contract; acceptance_lock = l })

unfoldable pub freeze_contract : TaskContract → TaskContract
freeze_contract c = record c { status = ContractStatus.frozen }

unfoldable pub freeze_draft : String → List DraftRow → List DraftRow
freeze_draft draft_id =
    update_where (λ row. row.draft_id == draft_id)
      (λ row. record row { status = ContractStatus.frozen })

-- What follows the insertion.
unfoldable pub note_frozen : String → Tables → Tables
unfolding freeze_draft
note_frozen draft_id t = record t {
  drafts = freeze_draft draft_id t.drafts;
  events = "contract.frozen" ∷ t.events;
}

unfoldable pub freeze_new : Digests → String → TaskContract → String → Write FrozenContract
unfolding insert_frozen note_frozen read_frozen
freeze_new d draft_id c message_id t = do
  u ← insert_frozen d c message_id t
  f ← read_frozen c.contract_id c.revision (note_frozen draft_id u)
  ok (f, note_frozen draft_id u)

unfoldable pub freeze_existing : Digests → TaskContract → RevisionRow → Write FrozenContract
unfolding read_frozen
freeze_existing d c row t = do
  require (row.contract_hash == d.sha256 c)
      (lifecycle_error "a different frozen Contract already owns this revision")
  f ← read_frozen c.contract_id c.revision t
  ok (f, t)

unfoldable pub freeze_found :
    Digests → String → TaskContract → String → Option RevisionRow → Write FrozenContract
unfolding freeze_new freeze_existing
freeze_found d draft_id c message_id none t = freeze_new d draft_id c message_id t
freeze_found d draft_id c message_id (some row) t = freeze_existing d c row t

unfoldable pub freeze : Digests → String → Confirmation → Write FrozenContract
unfolding freeze_found freeze_contract find_revision
freeze d draft_id m t = do
  require m.confirmed (lifecycle_error "explicit Human confirmation is required")
  row ← required (find_first (λ row. row.draft_id == draft_id) t.drafts) (key_error draft_id)
  let c = freeze_contract row.contract
  freeze_found d draft_id c m.message_id (find_revision c.contract_id c.revision t) t

larger : Option ℕ → ℕ → Option ℕ
larger none n = some n
larger (some m) n = if leb m n then some n else some m

-- SELECT MAX(revision) ... WHERE contract_id = ?
latest_revision : String → List RevisionRow → Option ℕ
unfolding larger
latest_revision contract_id [] = none
latest_revision contract_id (row ∷ rows) =
    let rest = latest_revision contract_id rows in
    if row.contract_id == contract_id then larger rest row.revision else rest

is_latest : Option ℕ → ℕ → Bool
is_latest none revision = false
is_latest (some latest) revision = eqb latest revision

-- The revision that a delta makes of its source.
unfoldable pub revise : TaskContract → ContractDelta → TaskContract
revise source delta = record source {
  revision = source.revision + 1;
  supersedes = some (record { contract_id = source.contract_id; revision = source.revision });
  description = delta.replacement_description;
  status = ContractStatus.frozen;
}

unfoldable pub note_delta : ContractDelta → ℕ → String → Tables → Tables
note_delta delta revision message_id t = record t {
  deltas =
      t.deltas
      ++ record { delta = delta; new_revision = revision; confirmation_message_id = message_id }
        ∷ [];
  events = "contract.revision.created" ∷ t.events;
}

pub same_delta : ContractDelta → ℕ → DeltaRow → Bool
same_delta delta revision row =
    row.delta.delta_id == delta.delta_id
    || row.delta.contract_id == delta.contract_id && eqb row.new_revision revision

unfoldable pub insert_revised :
    Digests → ContractDelta → TaskContract → String → Write FrozenContract
unfolding insert_frozen note_delta same_delta read_frozen
insert_revised d delta c message_id t = do
  u ← insert_frozen d c message_id t
  require (not (any (same_delta delta c.revision) u.deltas)) (integrity_error "contract_deltas")
  f ← read_frozen c.contract_id c.revision (note_delta delta c.revision message_id u)
  ok (f, note_delta delta c.revision message_id u)

unfoldable pub apply_delta : Digests → ContractDelta → Confirmation → Write FrozenContract
unfolding find_revision latest_revision is_latest revise revision_is_append_only insert_revised
apply_delta d delta m t = do
  require m.confirmed (lifecycle_error "explicit Human confirmation is required")
  row ←
      required (find_revision delta.contract_id delta.source_revision t)
        (lifecycle_error "source Contract revision does not exist")
  require (is_latest (latest_revision delta.contract_id t.revisions) delta.source_revision)
      (lifecycle_error "delta must apply to the latest frozen revision")
  revision_is_append_only (revise row.contract delta)
  insert_revised d delta (revise row.contract delta) m.message_id t
