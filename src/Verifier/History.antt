-- ===== src/Verifier/History.antt =====
-- The tables of verifier/lifecycle.py after any sequence of calls of the repository.
use graph_engineering.Prelude.{
  ℕ, String, Bool, true, Option, none, some, List, [], ◌∷◌, ◌≡◌, refl, ◌≤◌, sym, ◌∙◌, ap, subst,
  ◌⊎◌, inl, inr, arith, ok, find_first, find_first-append, All, Bool-cases, >>=-eq-ok,
}
use graph_engineering.Verifier.Lifecycle.{
  Lifecycle, Hashes, Manifest, RevisionRow, ContractRow, Tables, Digests, Evidence, is_revision,
  find_revision, update_first, insert_revision, latest_revision, follows, stage_hashed, stage,
  hashes, allowed, set_lifecycle, advance, record_evidence, is_frozen, is_dry_run, freeze_row, bind,
  freeze,
}

module _ {ℓ} {A : Type ℓ} where
  -- A row that is found before an update by key is found after it, changed where the key found it.
  pub find_first-update_first :
      (p q : A → Bool) (f : A → A) (xs : List A) {x : A}
      → ((y : A) → q (f y) ≡ q y)
      → find_first q xs ≡ some x
      → (x' : A) × (find_first q (update_first p f xs) ≡ some x')
        × ((x' ≡ x) ⊎ ((x' ≡ f x) × (find_first p xs ≡ some x)))
  unfolding find_first update_first
  find_first-update_first p q f [] keep e = cc
  find_first-update_first p q f (y ∷ ys) {x = x} keep e = elim (Bool-cases (p y)) [
    | inl t ↦ elim (Bool-cases (q y)) [
      | inl u ↦
          let same : y ≡ x = ground arith in
          (f y, rw t (rw (keep y ∙ u) refl), inr (ap f same, rw t (ap some same)))
      | inr u ↦ (x, rw t (rw (keep y ∙ u) (ground arith)), inl refl)
    ]
    | inr t ↦ elim (Bool-cases (q y)) [
      | inl u ↦ let same : y ≡ x = ground arith in (y, rw t (rw u refl), inl same)
      | inr u ↦
          let later : find_first q ys ≡ some x = ground arith in
          let (x', found, which) = find_first-update_first p q f ys keep later in
          (x', rw t (rw u found), elim which [ inl a ↦ inl a | inr b ↦ inr (b.0, rw t b.1) ])
    ]
  ]

  pub All-update_first {κ} :
      (P : A → Type κ) (p : A → Bool) (f : A → A) (xs : List A) {x : A}
      → find_first p xs ≡ some x
      → All P xs
      → P (f x)
      → All P (update_first p f xs)
  unfolding find_first update_first
  All-update_first P p f [] e h k = cc
  All-update_first P p f (y ∷ ys) {x = x} e h k = elim (Bool-cases (p y)) [
    | inl t ↦ let same : x ≡ y = ground arith in rw t (subst (λ z. P (f z)) same k, h.1)
    | inr t ↦
        let later : find_first p ys ≡ some x = ground arith in
        rw t (h.0, All-update_first P p f ys later h.1 k)
  ]

-- One call of the repository, or a change of the contracts by another component.
pub data Call (t : Tables) : Tables → Type 0 where
  stages :
      {s : Tables} (d : Digests) (m : Manifest) (source tests : String) (fixtures : Option String)
      (h : Hashes)
      → stage d m source tests fixtures t ≡ ok (h, s)
      → Call t s
  records :
      {s : Tables} (verifier_id : String) (revision : ℕ) (lifecycle : Lifecycle) (result : Evidence)
      (artifact_id : Option String)
      → record_evidence verifier_id revision lifecycle result artifact_id t ≡ ok (tt, s)
      → Call t s
  freezes :
      {s : Tables} (verifier_id : String) (revision : ℕ) (contract_id : String)
      (contract_revision : ℕ) (message : String) (h : Hashes)
      → freeze verifier_id revision contract_id contract_revision message t ≡ ok (h, s)
      → Call t s
  contracts_change : (cs : List ContractRow) → Call t (record t { contracts = cs })

pub data Calls (t : Tables) : Tables → Type 0 where
  here : Calls t t
  next : {s u : Tables} → Calls t s → Call s u → Calls t u

-- The place of a stage in the life cycle.
abbrev pub rank : Lifecycle → ℕ
rank Lifecycle.draft = 0
rank Lifecycle.validated = 1
rank Lifecycle.tested = 2
rank Lifecycle.dry_run = 3
rank Lifecycle.frozen = 4

-- What becomes of a row.
pub record Later (row row' : RevisionRow) : Type 0 where
  pub same_manifest : row'.manifest ≡ row.manifest
  pub same_digests : row'.hashes ≡ row.hashes
  pub same_paths :
      (row'.source_path ≡ row.source_path)
      × (row'.tests_path ≡ row.tests_path)
      × (row'.fixtures_path ≡ row.fixtures_path)
  pub no_earlier : rank row.lifecycle ≤ rank row'.lifecycle
  pub stays_frozen : is_frozen row.lifecycle ≡ true → row' ≡ row

Later-refl : (row : RevisionRow) → Later row row
Later-refl row = record {
  same_manifest = refl;
  same_digests = refl;
  same_paths = (refl, refl, refl);
  no_earlier = ground arith;
  stays_frozen = λ e. refl;
}

Later-trans : {a b c : RevisionRow} → Later a b → Later b c → Later a c
Later-trans {a = a} {b = b} {c = c} h k = record {
  same_manifest = k.same_manifest ∙ h.same_manifest;
  same_digests = k.same_digests ∙ h.same_digests;
  same_paths = (
    k.same_paths.0 ∙ h.same_paths.0,
    k.same_paths.1 ∙ h.same_paths.1,
    k.same_paths.2 ∙ h.same_paths.2,
  );
  no_earlier = let below = h.no_earlier in let above = k.no_earlier in omega arith;
  stays_frozen = λ e.
      let same = h.stays_frozen e in
      k.stays_frozen (subst (λ x. is_frozen x.lifecycle ≡ true) (sym same) e) ∙ same;
}

advanced :
    (row : RevisionRow) (lifecycle : Lifecycle)
    → allowed row.lifecycle lifecycle ≡ true
    → Later row (set_lifecycle lifecycle row)
unfolding allowed set_lifecycle
advanced row lifecycle e = record {
  same_manifest = refl;
  same_digests = refl;
  same_paths = (refl, refl, refl);
  no_earlier = ground arith;
  stays_frozen = λ f. absurd (ground arith);
}

froze :
    (row : RevisionRow) (message : String)
    → is_dry_run row.lifecycle ≡ true
    → Later row (freeze_row message row)
unfolding freeze_row
froze row message e = record {
  same_manifest = refl;
  same_digests = refl;
  same_paths = (refl, refl, refl);
  no_earlier = ground arith;
  stays_frozen = λ f. absurd (ground arith);
}

pub recorded :
    (verifier_id : String) (revision : ℕ) (lifecycle : Lifecycle) (result : Evidence)
    (artifact_id : Option String) (t s : Tables)
    → record_evidence verifier_id revision lifecycle result artifact_id t ≡ ok (tt, s)
    → (row : RevisionRow) × (find_revision verifier_id revision t ≡ some row)
      × (allowed row.lifecycle lifecycle ≡ true)
      × (result.passed ≡ true)
      × (s ≡ advance verifier_id revision lifecycle result artifact_id t)
unfolding record_evidence
recorded verifier_id revision lifecycle result artifact_id t s e = ground arith

pub frozen_by :
    (verifier_id : String) (revision : ℕ) (contract_id : String) (contract_revision : ℕ)
    (message : String) (t s : Tables) (h : Hashes)
    → freeze verifier_id revision contract_id contract_revision message t ≡ ok (h, s)
    → (row : RevisionRow) × (find_revision verifier_id revision t ≡ some row)
      × (is_dry_run row.lifecycle ≡ true)
      × (h ≡ row.hashes)
      × (s ≡ bind contract_id contract_revision verifier_id revision row.hashes message t)
unfolding freeze
frozen_by verifier_id revision contract_id contract_revision message t s h e = ground arith

stage_hashed_inserts :
    (m : Manifest) (source tests : String) (fixtures : Option String) (k h : Hashes) (t s : Tables)
    → stage_hashed m source tests fixtures k t ≡ ok (h, s)
    → (find_revision m.verifier_id m.revision t ≡ none)
      × (follows (latest_revision m.verifier_id t.revisions) m.revision ≡ true)
      × (h ≡ k)
      × (s ≡ insert_revision m source tests fixtures k t)
unfolding stage_hashed
stage_hashed_inserts m source tests fixtures k h t s e =
    (ground arith, ground arith, ground arith, ground arith)

pub staged :
    (d : Digests) (m : Manifest) (source tests : String) (fixtures : Option String) (t s : Tables)
    (h : Hashes)
    → stage d m source tests fixtures t ≡ ok (h, s)
    → (find_revision m.verifier_id m.revision t ≡ none)
      × (s ≡ insert_revision m source tests fixtures h t)
unfolding stage
staged d m source tests fixtures t s h e =
    let (k, _, kept) =
      >>=-eq-ok (hashes d m source tests fixtures) (λ k. stage_hashed m source tests fixtures k t)
        e in
    let (new, _, same, written) = stage_hashed_inserts m source tests fixtures k h t s kept in
    (new, subst (λ z. s ≡ insert_revision m source tests fixtures z t) (sym same) written)

-- An update by key of the table, seen from any row.
updated :
    (verifier_id id : String) (revision number : ℕ) (f : RevisionRow → RevisionRow) (t : Tables)
    {row changed : RevisionRow}
    → ((y : RevisionRow) → is_revision id number (f y) ≡ is_revision id number y)
    → find_revision verifier_id revision t ≡ some changed
    → Later changed (f changed)
    → find_revision id number t ≡ some row
    → (row' : RevisionRow) × (find_first
          (is_revision id number)
          (update_first (is_revision verifier_id revision) f t.revisions)
        ≡ some row')
      × Later row row'
unfolding find_revision
updated verifier_id id revision number f t {row = row} {changed = changed} keep guard later e =
    let (row', found, which) =
      find_first-update_first (is_revision verifier_id revision) (is_revision id number) f
        t.revisions keep e in
    (
      row',
      found,
      elim which [
        | inl same ↦ subst (Later row) (sym same) (Later-refl row)
        | inr both ↦
            let same : changed ≡ row = ground arith in
            subst (Later row) (sym both.0) (subst (λ z. Later z (f z)) same later)
      ],
    )

pub Call-Later :
    {t s : Tables} (id : String) (number : ℕ) {row : RevisionRow}
    → Call t s
    → find_revision id number t ≡ some row
    → (row' : RevisionRow) × (find_revision id number s ≡ some row') × Later row row'
unfolding find_revision advance bind is_revision set_lifecycle freeze_row insert_revision
Call-Later {t = t} {s = s} id number {row = row} (stages d m source tests fixtures h e) found =
    let (_, written) = staged d m source tests fixtures t s h e in
    rw written (row, find_first-append _ t.revisions _ found, Later-refl row)
Call-Later {t = t} {s = s} id number (records v n l result a e) found =
    let (changed, guard, may, _, written) = recorded v n l result a t s e in
    rw written
      (updated v id n number (set_lifecycle l) t (λ y. refl) guard (advanced changed l may) found)
Call-Later {t = t} {s = s} id number (freezes v n c k message h e) found =
    let (changed, guard, dry, _, written) = frozen_by v n c k message t s h e in
    rw written (
      updated v id n number (freeze_row message) t (λ y. refl) guard (froze changed message dry)
        found)
Call-Later id number {row = row} (contracts_change cs) found = (row, found, Later-refl row)

-- A revision that is in the table stays there, whatever calls follow: its manifest, its hashes and its
-- paths do not change, its life cycle never goes back, and once it is frozen the whole row stays.
pub revision_stays :
    (t s : Tables) (id : String) (number : ℕ) (row : RevisionRow)
    → find_revision id number t ≡ some row
    → Calls t s
    → (row' : RevisionRow) × (find_revision id number s ≡ some row') × Later row row'
revision_stays t s id number row found here = (row, found, Later-refl row)
revision_stays t s id number row found (next {s = m} path call) =
    let (middle, there, early) = revision_stays t m id number row found path in
    let (last, found', late) = Call-Later id number call there in
    (last, found', Later-trans early late)
