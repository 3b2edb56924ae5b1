-- ===== src/Verifier/Lifecycle.antt =====
-- VerifierRepository of verifier/lifecycle.py. A method that raises writes nothing, and one that returns
-- gives the tables as its transaction has left them.
use graph_engineering.Prelude.{
  ℕ, ◌+◌, String, Bool, true, false, not, ◌&&◌, Option, none, some, List, [], ◌∷◌, ◌++◌, Except, ok,
  require, required, lifecycle_error, key_error, integrity_error, ◌>>=◌, ◌>>◌, ◌==◌, eqb, leb, ltb,
  is_none, if◌then◌else◌, find_first, any,
}

-- VerifierLifecycle of verifier/types.py.
pub data Lifecycle : Type 0 where
  draft validated tested dry_run frozen : Lifecycle

-- VerifierRevisionHashes
pub record Hashes : Type 0 where
  pub manifest_sha256 : String
  pub source_sha256 : String
  pub tests_sha256 : String
  pub fixtures_sha256 : Option String

-- VerifierManifest; `document` is the JSON of the whole.
pub record Manifest : Type 0 where
  pub verifier_id : String
  pub revision : ℕ
  pub verifier_type : String
  pub document : String

-- Table verifier_revisions.
pub record RevisionRow : Type 0 where
  pub verifier_id : String
  pub revision : ℕ
  pub manifest : Manifest
  pub hashes : Hashes
  pub source_path : String
  pub tests_path : String
  pub fixtures_path : Option String
  pub lifecycle : Lifecycle
  pub confirmation_message_id : Option String

-- The evidence of a stage: whether `passed` is True in it, and its JSON.
pub record Evidence : Type 0 where
  pub passed : Bool
  pub document : String

-- Table verifier_lifecycle_evidence; `result` is the evidence of result_json.
pub record EvidenceRow : Type 0 where
  pub verifier_id : String
  pub revision : ℕ
  pub lifecycle : Lifecycle
  pub result : Evidence
  pub artifact_id : Option String

-- Table contract_verifier_bindings.
pub record BindingRow : Type 0 where
  pub contract_id : String
  pub contract_revision : ℕ
  pub verifier_id : String
  pub verifier_revision : ℕ
  pub hashes : Hashes

-- A verifier that a contract declares, and the rows of contract_revisions.
pub record Requirement : Type 0 where
  pub verifier_id : String
  pub verifier_type : String

pub record ContractRow : Type 0 where
  pub contract_id : String
  pub revision : ℕ
  pub verifiers : List Requirement

-- The tables that the repository reads and writes, and the types of the events, the latest first.
pub record Tables : Type 0 where
  pub revisions : List RevisionRow
  pub evidence : List EvidenceRow
  pub bindings : List BindingRow
  pub contracts : List ContractRow
  pub events : List String

-- The digest of a text, and that of a file or of a directory at a path as the files are at the time of
-- a call.
pub record Digests : Type 0 where
  pub sha256 : String → String
  pub hash_path : String → Except String

abbrev pub Write : Type 0 → Type 0
Write A = Tables → Except (A × Tables)

hash_optional : Digests → Option String → Except (Option String)
hash_optional d none = ok none
hash_optional d (some path) = do digest ← d.hash_path path; ok (some digest)

-- VerifierRepository.hashes
unfoldable pub hashes : Digests → Manifest → String → String → Option String → Except Hashes
unfolding hash_optional
hashes d m source tests fixtures = do
  source_sha256 ← d.hash_path source
  tests_sha256 ← d.hash_path tests
  fixtures_sha256 ← hash_optional d fixtures
  ok (record {
    manifest_sha256 = d.sha256 m.document;
    source_sha256 = source_sha256;
    tests_sha256 = tests_sha256;
    fixtures_sha256 = fixtures_sha256;
  })

-- WHERE verifier_id = ? AND revision = ?
unfoldable pub is_revision : String → ℕ → RevisionRow → Bool
is_revision verifier_id revision row = row.verifier_id == verifier_id && eqb row.revision revision

unfoldable pub find_revision : String → ℕ → Tables → Option RevisionRow
unfolding is_revision
find_revision verifier_id revision t = find_first (is_revision verifier_id revision) t.revisions

-- UPDATE ... WHERE the primary key is given, which one row has at most.
unfoldable pub update_first {ℓ} : {A : Type ℓ} → (A → Bool) → (A → A) → List A → List A
update_first p f [] = []
update_first p f (x ∷ xs) = if p x then f x ∷ xs else x ∷ update_first p f xs

larger : Option ℕ → ℕ → Option ℕ
larger none n = some n
larger (some m) n = if leb m n then some n else some m

-- SELECT MAX(revision) ... WHERE verifier_id = ?
unfoldable pub latest_revision : String → List RevisionRow → Option ℕ
unfolding larger
latest_revision verifier_id [] = none
latest_revision verifier_id (row ∷ rows) =
    let rest = latest_revision verifier_id rows in
    if row.verifier_id == verifier_id then larger rest row.revision else rest

unfoldable pub follows : Option ℕ → ℕ → Bool
follows none revision = true
follows (some latest) revision = eqb revision (latest + 1)

unfoldable pub new_revision : Manifest → String → String → Option String → Hashes → RevisionRow
new_revision m source tests fixtures h = record {
  verifier_id = m.verifier_id;
  revision = m.revision;
  manifest = m;
  hashes = h;
  source_path = source;
  tests_path = tests;
  fixtures_path = fixtures;
  lifecycle = Lifecycle.draft;
  confirmation_message_id = none;
}

unfoldable pub insert_revision :
    Manifest → String → String → Option String → Hashes → Tables → Tables
unfolding new_revision
insert_revision m source tests fixtures h t = record t {
  revisions = t.revisions ++ new_revision m source tests fixtures h ∷ [];
  events = "verifier.revision.staged" ∷ t.events;
}

-- The transaction.
unfoldable pub stage_hashed : Manifest → String → String → Option String → Hashes → Write Hashes
unfolding find_revision latest_revision follows insert_revision
stage_hashed m source tests fixtures h t = do
  require (is_none (find_revision m.verifier_id m.revision t))
      (lifecycle_error "Verifier revision already exists and is immutable")
  require (follows (latest_revision m.verifier_id t.revisions) m.revision)
      (lifecycle_error "Verifier revisions must be append-only")
  ok (h, insert_revision m source tests fixtures h t)

unfoldable pub stage : Digests → Manifest → String → String → Option String → Write Hashes
unfolding hashes stage_hashed
stage d m source tests fixtures t =
    hashes d m source tests fixtures >>= λ h. stage_hashed m source tests fixtures h t

-- allowed.get(current) is lifecycle
unfoldable pub allowed : Lifecycle → Lifecycle → Bool
allowed Lifecycle.draft Lifecycle.validated = true
allowed Lifecycle.validated Lifecycle.tested = true
allowed Lifecycle.tested Lifecycle.dry_run = true
allowed _ _ = false

unfoldable pub set_lifecycle : Lifecycle → RevisionRow → RevisionRow
set_lifecycle lifecycle row = record row { lifecycle = lifecycle }

unfoldable pub new_evidence : String → ℕ → Lifecycle → Evidence → Option String → EvidenceRow
new_evidence verifier_id revision lifecycle result artifact_id = record {
  verifier_id = verifier_id;
  revision = revision;
  lifecycle = lifecycle;
  result = result;
  artifact_id = artifact_id;
}

unfoldable pub advance : String → ℕ → Lifecycle → Evidence → Option String → Tables → Tables
unfolding is_revision update_first set_lifecycle new_evidence
advance verifier_id revision lifecycle result artifact_id t = record t {
  revisions = update_first (is_revision verifier_id revision) (set_lifecycle lifecycle) t.revisions;
  evidence = t.evidence ++ new_evidence verifier_id revision lifecycle result artifact_id ∷ [];
}

-- VerifierRepository.record
unfoldable pub record_evidence : String → ℕ → Lifecycle → Evidence → Option String → Write Unit
unfolding find_revision allowed advance
record_evidence verifier_id revision lifecycle result artifact_id t = do
  row ← required (find_revision verifier_id revision t) (key_error verifier_id)
  require (allowed row.lifecycle lifecycle) (lifecycle_error "invalid Verifier lifecycle")
  require result.passed (lifecycle_error "evidence did not pass")
  ok (tt, advance verifier_id revision lifecycle result artifact_id t)

abbrev pub is_dry_run : Lifecycle → Bool
is_dry_run Lifecycle.dry_run = true
is_dry_run _ = false

abbrev pub is_frozen : Lifecycle → Bool
is_frozen Lifecycle.frozen = true
is_frozen _ = false

unfoldable pub find_contract : String → ℕ → Tables → Option ContractRow
find_contract contract_id revision t =
    find_first (λ c. c.contract_id == contract_id && eqb c.revision revision) t.contracts

-- The first requirement of the verifier's id has its type.
declares : String → String → Option Requirement → Bool
declares verifier_id verifier_type none = false
declares verifier_id verifier_type (some q) = q.verifier_type == verifier_type

unfoldable pub declared : ContractRow → RevisionRow → Bool
unfolding declares
declared c row =
    declares row.verifier_id row.manifest.verifier_type
      (find_first (λ q. q.verifier_id == row.verifier_id) c.verifiers)

-- MAX(verifier_revision) and MAX(contract_revision) of a verifier's bindings.
unfoldable pub previous : String → List BindingRow → Option (ℕ × ℕ)
previous verifier_id [] = none
previous verifier_id (b ∷ bs) =
    let rest = previous verifier_id bs in
    if b.verifier_id == verifier_id then some (widen rest b) else rest
  where
    widen : Option (ℕ × ℕ) → BindingRow → ℕ × ℕ
    widen none b = (b.verifier_revision, b.contract_revision)
    widen (some (v, c)) b = (
      (if leb v b.verifier_revision then b.verifier_revision else v),
      (if leb c b.contract_revision then b.contract_revision else c),
    )

-- A revision above those that are bound needs a contract revision above theirs.
unfoldable pub newer : Option (ℕ × ℕ) → ℕ → ℕ → Bool
newer none revision contract_revision = true
newer (some (v, c)) revision contract_revision = not (ltb v revision && leb contract_revision c)

unfoldable pub same_binding : String → ℕ → String → BindingRow → Bool
same_binding contract_id contract_revision verifier_id b =
    b.contract_id == contract_id
    && eqb b.contract_revision contract_revision
    && b.verifier_id == verifier_id

unfoldable pub freeze_row : String → RevisionRow → RevisionRow
freeze_row message row = record row {
  lifecycle = Lifecycle.frozen;
  confirmation_message_id = some message;
}

unfoldable pub bind : String → ℕ → String → ℕ → Hashes → String → Tables → Tables
unfolding is_revision update_first freeze_row
bind contract_id contract_revision verifier_id revision h message t = record t {
  revisions = update_first (is_revision verifier_id revision) (freeze_row message) t.revisions;
  bindings =
      t.bindings
      ++ record {
        contract_id = contract_id;
        contract_revision = contract_revision;
        verifier_id = verifier_id;
        verifier_revision = revision;
        hashes = h;
      }
        ∷ [];
  events = "verifier.revision.frozen" ∷ t.events;
}

unfoldable pub freeze : String → ℕ → String → ℕ → String → Write Hashes
unfolding find_revision find_contract declared previous newer same_binding bind
freeze verifier_id revision contract_id contract_revision message t = do
  require (not (message == "")) (lifecycle_error "Human confirmation is required before freeze")
  row ← required (find_revision verifier_id revision t) (key_error verifier_id)
  require (is_dry_run row.lifecycle)
      (lifecycle_error "validate, test, and dry-run must pass before freeze")
  contract ←
      required (find_contract contract_id contract_revision t)
        (lifecycle_error "Verifier freeze requires an existing frozen Contract revision")
  require (declared contract row)
      (lifecycle_error "frozen Contract does not declare this Verifier ID and type")
  require (newer (previous verifier_id t.bindings) revision contract_revision)
      (lifecycle_error "a new Verifier revision requires a new Contract revision")
  require (not (any (same_binding contract_id contract_revision verifier_id) t.bindings))
      (integrity_error "contract_verifier_bindings")
  ok (row.hashes, bind contract_id contract_revision verifier_id revision row.hashes message t)

unfoldable pub same_option : Option String → Option String → Bool
same_option none none = true
same_option (some a) (some b) = a == b
same_option _ _ = false

unfoldable pub same_hashes : Hashes → Hashes → Bool
unfolding same_option
same_hashes a b =
    a.manifest_sha256 == b.manifest_sha256
    && a.source_sha256 == b.source_sha256
    && a.tests_sha256 == b.tests_sha256
    && same_option a.fixtures_sha256 b.fixtures_sha256

unfoldable pub check_drift : RevisionRow → Hashes → Except Hashes
unfolding same_hashes
check_drift row actual = do
  require (same_hashes actual row.hashes)
      (lifecycle_error "frozen Verifier hash drift; refusing execution")
  ok row.hashes

unfoldable pub verify_row : Digests → RevisionRow → Except Hashes
unfolding hashes check_drift
verify_row d row = do
  require (is_frozen row.lifecycle) (lifecycle_error "Verifier revision is not frozen")
  actual ← hashes d row.manifest row.source_path row.tests_path row.fixtures_path
  check_drift row actual

unfoldable pub verify_frozen : Digests → String → ℕ → Tables → Except Hashes
unfolding find_revision verify_row
verify_frozen d verifier_id revision t =
    required (find_revision verifier_id revision t)
      (lifecycle_error "Verifier revision is not frozen")
    >>= verify_row d
