-- ===== src/Contracts/Locked.antt =====
-- The locks of the revisions of contracts/repository.py.
use graph_engineering.Prelude.{
  ℕ, String, some, List, [], ◌∷◌, ◌++◌, ◌≡◌, refl, subst, inl, inr, arith, ok, find_first,
  Bool-cases, ◌==◌, ◌&&◌, eqb, eq_iff,
}
use graph_engineering.Contracts.Repository.{
  ContractStatus, TaskContract, Digests, AcceptanceLock, RevisionRow, Tables, is_revision, is_lock,
  find_revision, find_lock, new_revision, new_lock, read_frozen,
}
use graph_engineering.Contracts.Kept.{Calls, here, next, Grown, Call-Grown}

-- Two tables with the rows of the same frozen contracts.
pub data Locked (d : Digests) : List RevisionRow → List AcceptanceLock → Type 0 where
  nothing : Locked d [] []
  locked :
      {rows : List RevisionRow} {locks : List AcceptanceLock} (c : TaskContract)
      (message_id : String)
      → c.status ≡ ContractStatus.frozen
      → Locked d rows locks
      → Locked d (new_revision d c message_id ∷ rows) (new_lock d c message_id ∷ locks)

snoc-Locked :
    (d : Digests) (rows : List RevisionRow) (locks : List AcceptanceLock) (c : TaskContract)
    (message_id : String)
    → c.status ≡ ContractStatus.frozen
    → Locked d rows locks
    → Locked d (rows ++ new_revision d c message_id ∷ []) (locks ++ new_lock d c message_id ∷ [])
snoc-Locked d _ _ c m frozen nothing = locked c m frozen nothing
snoc-Locked d _ _ c m frozen (locked {rows = rows} {locks = locks} c' m' frozen' rest) =
    locked c' m' frozen' (snoc-Locked d rows locks c m frozen rest)

Grown-Locked :
    (d : Digests) (t s : Tables)
    → Grown d t s
    → Locked d t.revisions t.locks
    → Locked d s.revisions s.locks
Grown-Locked d t s (inl (r, l)) h = rw r (rw l h)
Grown-Locked d t s (inr a) h =
    rw (a.revisions)
      (rw (a.locks) (snoc-Locked d t.revisions t.locks a.contract a.message_id a.is_frozen h))

Calls-Locked :
    (d : Digests) (t s : Tables)
    → Calls d t s
    → Locked d t.revisions t.locks
    → Locked d s.revisions s.locks
Calls-Locked d t _ here h = h
Calls-Locked d t s (next {s = u} calls call) h =
    Grown-Locked d u s (Call-Grown d u s call) (Calls-Locked d t u calls h)

abbrev pub Frozen : Digests → String → ℕ → RevisionRow → Type 0
Frozen d id n row =
    (row.contract.contract_id ≡ id)
    × (row.contract.revision ≡ n)
    × (row.contract.status ≡ ContractStatus.frozen)
    × (row.contract_hash ≡ d.sha256 row.contract)

found-Locked :
    (d : Digests) (id : String) (n : ℕ) (rows : List RevisionRow) (locks : List AcceptanceLock)
    {row : RevisionRow}
    → Locked d rows locks
    → find_first (is_revision id n) rows ≡ some row
    → (find_first (is_lock id n) locks ≡ some (new_lock d row.contract row.confirmation_message_id))
      × Frozen d id n row
unfolding find_first is_revision is_lock new_revision new_lock
found-Locked d id n _ _ nothing e = cc
found-Locked d id n _ _ {row = row} (locked {rows = rows} {locks = locks} c m frozen rest) e =
    elim (Bool-cases (c.contract_id == id && eqb c.revision n)) [
      | inl t ↦
          let same : new_revision d c m ≡ row = ground arith in
          subst
            (λ x.
              (find_first (is_lock id n) (new_lock d c m ∷ locks)
                ≡ some (new_lock d x.contract x.confirmation_message_id))
              × Frozen d id n x)
            same (rw t refl, (ground (arith, eq_iff c.contract_id id), ground arith, frozen, refl))
      | inr t ↦
          let later : find_first (is_revision id n) rows ≡ some row = ground arith in
          rw t (found-Locked d id n rows locks rest later)
    ]

-- From tables with no revision and no lock, whatever calls follow, a revision that is found is the
-- frozen contract of its id and its number under the hash of that contract, and _frozen returns it
-- with the lock that its freeze made.
pub read_frozen_returns :
    (d : Digests) (id : String) (n : ℕ) (t s : Tables) {row : RevisionRow}
    → Calls d t s
    → t.revisions ≡ []
    → t.locks ≡ []
    → find_revision id n s ≡ some row
    → (read_frozen id n s
        ≡ ok (record {
          contract = row.contract;
          acceptance_lock = new_lock d row.contract row.confirmation_message_id;
        }))
      × Frozen d id n row
unfolding read_frozen find_revision find_lock
read_frozen_returns d id n t s calls no_row no_lock found =
    let (l, held) =
      found-Locked d id n s.revisions s.locks
        (Calls-Locked d t s calls (rw no_row (rw no_lock nothing))) found in
    (rw found (rw l refl), held)
