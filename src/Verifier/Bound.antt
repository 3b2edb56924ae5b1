-- ===== src/Verifier/Bound.antt =====
-- The bindings of frozen revisions to contracts in verifier/lifecycle.py, and verify_frozen.
use graph_engineering.Prelude.{
  ℕ, String, Bool, true, Option, none, some, List, [], ◌∷◌, ◌++◌, ◌≡◌, refl, sym, ◌∙◌, ap, subst,
  inl, inr, arith, ok, eq_iff, find_first, All, Bool-cases, >>=-eq-ok, >>-eq-ok, ◌>>=◌, require,
  lifecycle_error,
}
use graph_engineering.Verifier.Lifecycle.{
  Hashes, RevisionRow, BindingRow, Tables, Digests, is_revision, find_revision, update_first,
  is_frozen, freeze_row, bind, advance, hashes, same_option, same_hashes, check_drift, verify_row,
  verify_frozen, insert_revision,
}
use graph_engineering.Verifier.History.{
  Call, stages, records, freezes, contracts_change, Calls, here, next, Call-Later, staged, recorded,
  frozen_by,
}

module _ {ℓ} {A : Type ℓ} where
  -- An update by key changes the row that the key finds.
  find_first-updated :
      (p : A → Bool) (f : A → A) (xs : List A) {x : A}
      → ((y : A) → p (f y) ≡ p y)
      → find_first p xs ≡ some x
      → find_first p (update_first p f xs) ≡ some (f x)
  unfolding find_first update_first
  find_first-updated p f [] keep e = cc
  find_first-updated p f (y ∷ ys) {x = x} keep e = elim (Bool-cases (p y)) [
    | inl t ↦ let same : y ≡ x = ground arith in rw t (rw (keep y ∙ t) (ap some (ap f same)))
    | inr t ↦
        let later : find_first p ys ≡ some x = ground arith in
        rw t (rw t (find_first-updated p f ys keep later))
  ]

-- The frozen revision that a binding names, with the binding's hashes.
pub record Bound (t : Tables) (b : BindingRow) : Type 0 where
  pub row : RevisionRow
  pub found : find_revision b.verifier_id b.verifier_revision t ≡ some row
  pub frozen_row : is_frozen row.lifecycle ≡ true
  pub same : row.hashes ≡ b.hashes

abbrev pub AllBound : Tables → Type 0
AllBound t = All (λ (b : BindingRow). Bound t b) t.bindings

Bound-Later : {t s : Tables} (b : BindingRow) → Call t s → Bound t b → Bound s b
Bound-Later b call h =
    let (row', found, later) = Call-Later b.verifier_id b.verifier_revision call h.found in
    let stays : row' ≡ h.row = later.stays_frozen h.frozen_row in
    record { row = h.row; found = found ∙ ap some stays; frozen_row = h.frozen_row; same = h.same }

bindings_follow :
    {t s : Tables} (bs : List BindingRow)
    → Call t s
    → All (λ (b : BindingRow). Bound t b) bs
    → All (λ (b : BindingRow). Bound s b) bs
bindings_follow [] call h = tt
bindings_follow (b ∷ bs) call h = (Bound-Later b call h.0, bindings_follow bs call h.1)

bindings_snoc :
    (P : BindingRow → Type 0) (bs : List BindingRow) (b : BindingRow)
    → All P bs
    → P b
    → All P (bs ++ b ∷ [])
bindings_snoc P [] b h k = (k, tt)
bindings_snoc P (x ∷ bs) b h k = (h.0, bindings_snoc P bs b h.1 k)

carried :
    (s : Tables) (bs : List BindingRow)
    → s.bindings ≡ bs
    → All (λ (b : BindingRow). Bound s b) bs
    → AllBound s
carried s bs e h = subst (λ bs. All (λ b. Bound s b) bs) (sym e) h

bound_new :
    (id : String) (number : ℕ) (c : String) (m : ℕ) (message : String) (t : Tables)
    {row : RevisionRow}
    → find_revision id number t ≡ some row
    → find_revision id number (bind c m id number row.hashes message t)
      ≡ some (freeze_row message row)
unfolding find_revision bind freeze_row is_revision
bound_new id number c m message t found =
    find_first-updated (is_revision id number) (freeze_row message) t.revisions (λ y. refl) found

Call-AllBound : {t s : Tables} → Call t s → AllBound t → AllBound s
unfolding insert_revision advance bind freeze_row
Call-AllBound {t = t} {s = s} (stages d m source tests fixtures h e) k =
    let (_, written) = staged d m source tests fixtures t s h e in
    carried s t.bindings (ap (λ x. x.bindings) written)
      (bindings_follow t.bindings (stages d m source tests fixtures h e) k)
Call-AllBound {t = t} {s = s} (records id n l result a e) k =
    let (_, _, _, _, written) = recorded id n l result a t s e in
    let call : Call t s = records id n l result a e in
    carried s t.bindings (ap (λ x. x.bindings) written) (bindings_follow t.bindings call k)
Call-AllBound {t = t} {s = s} (freezes id n c m message h e) k =
    let (row, found, dry, _, written) = frozen_by id n c m message t s h e in
    let call : Call t s = freezes id n c m message h e in
    carried s _ (ap (λ x. x.bindings) written) (
      bindings_snoc (λ b. Bound s b) t.bindings _ (bindings_follow t.bindings call k)
        (record {
          row = freeze_row message row;
          found = ap (find_revision id n) written ∙ bound_new id n c m message t found;
          frozen_row = refl;
          same = refl;
        }))
Call-AllBound {t = t} (contracts_change cs) k =
    let call : Call t (record t { contracts = cs }) = contracts_change cs in
    bindings_follow t.bindings call k

Calls-AllBound : {t s : Tables} → AllBound t → Calls t s → AllBound s
Calls-AllBound h here = h
Calls-AllBound h (next path call) = Call-AllBound call (Calls-AllBound h path)

same_option-eq : (a b : Option String) → same_option a b ≡ true → a ≡ b
unfolding same_option
same_option-eq none none h = refl
same_option-eq (some a) (some b) h = ap some (ground (arith, eq_iff a b))
same_option-eq none (some b) h = cc
same_option-eq (some a) none h = cc

same_hashes-eq : (a b : Hashes) → same_hashes a b ≡ true → a ≡ b
unfolding same_hashes
same_hashes-eq a b h =
    let m : a.manifest_sha256 ≡ b.manifest_sha256 =
      ground (arith, eq_iff a.manifest_sha256 b.manifest_sha256) in
    let s : a.source_sha256 ≡ b.source_sha256 =
      ground (arith, eq_iff a.source_sha256 b.source_sha256) in
    let t : a.tests_sha256 ≡ b.tests_sha256 =
      ground (arith, eq_iff a.tests_sha256 b.tests_sha256) in
    let f : a.fixtures_sha256 ≡ b.fixtures_sha256 =
      same_option-eq a.fixtures_sha256 b.fixtures_sha256 (ground arith) in
    cc

drifted :
    (row : RevisionRow) (actual h : Hashes)
    → check_drift row actual ≡ ok h
    → (row.hashes ≡ h) × (actual ≡ h)
unfolding check_drift
drifted row actual h e =
    let kept : row.hashes ≡ h = ground arith in
    (kept, same_hashes-eq actual row.hashes (ground arith) ∙ kept)

row_verified :
    (d : Digests) (row : RevisionRow) (h : Hashes)
    → verify_row d row ≡ ok h
    → (is_frozen row.lifecycle ≡ true)
      × (hashes d row.manifest row.source_path row.tests_path row.fixtures_path ≡ ok h)
      × (row.hashes ≡ h)
unfolding verify_row
row_verified d row h e =
    let (is_so, rest) =
      >>-eq-ok
        (require (is_frozen row.lifecycle) (lifecycle_error "Verifier revision is not frozen"))
        (hashes d row.manifest row.source_path row.tests_path row.fixtures_path >>= check_drift row)
        e in
    let (actual, made, checked) =
      >>=-eq-ok (hashes d row.manifest row.source_path row.tests_path row.fixtures_path)
        (check_drift row) rest in
    let (kept, same) = drifted row actual h checked in (ground arith, made ∙ ap ok same, kept)

verify_frozen_row :
    (d : Digests) (id : String) (number : ℕ) (t : Tables) {row : RevisionRow}
    → find_revision id number t ≡ some row
    → verify_frozen d id number t ≡ verify_row d row
unfolding verify_frozen
verify_frozen_row d id number t found = rw found refl

member :
    (P : BindingRow → Type 0) (before after : List BindingRow) {b : BindingRow}
    → All P (before ++ b ∷ after)
    → P b
member P [] after h = h.0
member P (x ∷ before) after h = member P before after h.1

-- From tables with no revision and no binding, whatever calls follow: the hashes that verify_frozen
-- returns for a revision that a contract is bound to are those of the binding, and those of the files
-- as they are when it is called. The files may change between the calls: each has its own digests.
pub verify_frozen_returns :
    (d : Digests) (t s : Tables) (b : BindingRow) (before after : List BindingRow) (h : Hashes)
    → t.revisions ≡ []
    → t.bindings ≡ []
    → Calls t s
    → s.bindings ≡ before ++ b ∷ after
    → verify_frozen d b.verifier_id b.verifier_revision s ≡ ok h
    → (h ≡ b.hashes)
      × ((row : RevisionRow) × (find_revision b.verifier_id b.verifier_revision s ≡ some row)
          × (hashes d row.manifest row.source_path row.tests_path row.fixtures_path ≡ ok h))
verify_frozen_returns d t s b before after h no_rows no_bindings path split e =
    let start : AllBound t = carried t [] no_bindings tt in
    let bound =
      member (λ x. Bound s x) before after
        (subst (λ bs. All (λ x. Bound s x) bs) split (Calls-AllBound start path)) in
    let (_, made, kept) =
      row_verified d bound.row h
        (sym (verify_frozen_row d b.verifier_id b.verifier_revision s bound.found) ∙ e) in
    (sym kept ∙ bound.same, (bound.row, bound.found, made))
