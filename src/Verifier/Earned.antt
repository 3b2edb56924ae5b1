-- ===== src/Verifier/Earned.antt =====
-- The evidence that verifier/lifecycle.py keeps for the stages of a revision.
use graph_engineering.Prelude.{
  ℕ, String, Bool, true, ◌&&◌, Option, some, List, [], ◌∷◌, ◌++◌, ◌≡◌, refl, sym, inl, inr, arith,
  ◌==◌, eqb, eq_iff, find_first-split, any, All, Bool-cases, All-find_first,
}
use graph_engineering.Verifier.Lifecycle.{
  Lifecycle, RevisionRow, EvidenceRow, Tables, Evidence, is_revision, find_revision, set_lifecycle,
  new_evidence, advance, allowed, is_frozen, is_dry_run, freeze_row, bind, insert_revision,
  new_revision,
}
use graph_engineering.Verifier.History.{
  Call, stages, records, freezes, contracts_change, Calls, here, next, rank, All-update_first,
  staged, recorded, frozen_by,
}

abbrev pub is_evidence : String → ℕ → Lifecycle → EvidenceRow → Bool
is_evidence id number stage e =
    e.verifier_id == id
    && eqb e.revision number
    && eqb (rank e.lifecycle) (rank stage)
    && e.result.passed

-- There is evidence of a stage of a revision, and it passed.
abbrev pub evidenced : List EvidenceRow → String → ℕ → Lifecycle → Bool
evidenced es id number stage = any (is_evidence id number stage) es

-- Each stage that the life cycle of a row has behind it is evidenced.
unfoldable pub earned_by : List EvidenceRow → String → ℕ → Lifecycle → Bool
earned_by es id number Lifecycle.draft = true
earned_by es id number Lifecycle.validated = evidenced es id number Lifecycle.validated
earned_by es id number Lifecycle.tested =
    evidenced es id number Lifecycle.validated && evidenced es id number Lifecycle.tested
earned_by es id number _ =
    evidenced es id number Lifecycle.validated
    && evidenced es id number Lifecycle.tested
    && evidenced es id number Lifecycle.dry_run

abbrev pub earned : List EvidenceRow → RevisionRow → Bool
earned es row = earned_by es row.verifier_id row.revision row.lifecycle

abbrev pub Earned : Tables → Type 0
Earned t = All (λ (row : RevisionRow). earned t.evidence row ≡ true) t.revisions

any_more :
    (p : EvidenceRow → Bool) (es fs : List EvidenceRow) → any p es ≡ true → any p (es ++ fs) ≡ true
unfolding any
any_more p [] fs h = cc
any_more p (e ∷ es) fs h = elim (Bool-cases (p e)) [
  | inl t ↦ rw t refl
  | inr t ↦ rw t (any_more p es fs (ground arith))
]

any_new :
    (p : EvidenceRow → Bool) (es : List EvidenceRow) (e : EvidenceRow)
    → p e ≡ true
    → any p (es ++ e ∷ []) ≡ true
unfolding any
any_new p [] e h = rw h refl
any_new p (f ∷ es) e h = elim (Bool-cases (p f)) [
  | inl t ↦ rw t refl
  | inr t ↦ rw t (any_new p es e h)
]

more :
    (es fs : List EvidenceRow) (id : String) (number : ℕ) (stage : Lifecycle)
    → earned_by es id number stage ≡ true
    → earned_by (es ++ fs) id number stage ≡ true
unfolding earned_by
more es fs id number Lifecycle.draft h = refl
more es fs id number Lifecycle.validated h = any_more _ es fs h
more es fs id number Lifecycle.tested h =
    let a = any_more (is_evidence id number Lifecycle.validated) es fs (ground arith) in
    let b = any_more (is_evidence id number Lifecycle.tested) es fs (ground arith) in ground arith
more es fs id number _ h =
    let a = any_more (is_evidence id number Lifecycle.validated) es fs (ground arith) in
    let b = any_more (is_evidence id number Lifecycle.tested) es fs (ground arith) in
    let c = any_more (is_evidence id number Lifecycle.dry_run) es fs (ground arith) in ground arith

one_more :
    (es : List EvidenceRow) (id : String) (number : ℕ) (from stage : Lifecycle)
    → allowed from stage ≡ true
    → earned_by es id number from ≡ true
    → evidenced es id number stage ≡ true
    → earned_by es id number stage ≡ true
unfolding allowed earned_by
one_more es id number Lifecycle.draft Lifecycle.validated may h k = k
one_more es id number Lifecycle.validated Lifecycle.tested may h k = ground arith
one_more es id number Lifecycle.tested Lifecycle.dry_run may h k = ground arith
one_more es id number _ _ may h k = absurd (ground arith)

-- The evidence of a stage, added by its passing.
passed :
    (es : List EvidenceRow) (id : String) (number : ℕ) (from stage : Lifecycle) (result : Evidence)
    (artifact_id : Option String)
    → allowed from stage ≡ true
    → result.passed ≡ true
    → earned_by es id number from ≡ true
    → earned_by (es ++ new_evidence id number stage result artifact_id ∷ []) id number stage ≡ true
unfolding allowed earned_by new_evidence
passed es id number from stage result artifact_id may good h =
    let e = new_evidence id number stage result artifact_id in
    let added : evidenced (es ++ e ∷ []) id number stage ≡ true =
      any_new (is_evidence id number stage) es e (rw ((eq_iff id id).1 refl) (ground arith)) in
    let before : earned_by (es ++ e ∷ []) id number from ≡ true =
      more es (e ∷ []) id number from h in
    one_more (es ++ e ∷ []) id number from stage may before added

-- A key that a row is found by is the row's.
pub keyed :
    (id : String) (number : ℕ) (t : Tables) {row : RevisionRow}
    → find_revision id number t ≡ some row
    → (row.verifier_id ≡ id) × (row.revision ≡ number)
unfolding find_revision is_revision
keyed id number t {row = row} e =
    let (_, _, _, hit, _) = find_first-split (is_revision id number) t.revisions e in
    (ground (arith, eq_iff row.verifier_id id), ground arith)

rows_more :
    (es fs : List EvidenceRow) (rows : List RevisionRow)
    → All (λ (row : RevisionRow). earned es row ≡ true) rows
    → All (λ (row : RevisionRow). earned (es ++ fs) row ≡ true) rows
rows_more es fs [] h = tt
rows_more es fs (row ∷ rows) h =
    (more es fs row.verifier_id row.revision row.lifecycle h.0, rows_more es fs rows h.1)

rows_snoc :
    (P : RevisionRow → Type 0) (rows : List RevisionRow) (row : RevisionRow)
    → All P rows
    → P row
    → All P (rows ++ row ∷ [])
rows_snoc P [] row h k = (k, tt)
rows_snoc P (r ∷ rows) row h k = (h.0, rows_snoc P rows row h.1 k)

advanced_earned :
    (es : List EvidenceRow) (id : String) (number : ℕ) (row : RevisionRow) (l : Lifecycle)
    (result : Evidence) (artifact_id : Option String)
    → row.verifier_id ≡ id
    → row.revision ≡ number
    → allowed row.lifecycle l ≡ true
    → result.passed ≡ true
    → earned es row ≡ true
    → earned (es ++ new_evidence id number l result artifact_id ∷ []) (set_lifecycle l row) ≡ true
unfolding set_lifecycle
advanced_earned es id number row l result artifact_id same_id same_number may good h =
    rw (sym same_id) (
      rw (sym same_number)
        (passed es row.verifier_id row.revision row.lifecycle l result artifact_id may good h))

dry_earned :
    (es : List EvidenceRow) (id : String) (number : ℕ) (l : Lifecycle)
    → is_dry_run l ≡ true
    → earned_by es id number l ≡ true
    → earned_by es id number Lifecycle.frozen ≡ true
unfolding earned_by
dry_earned es id number Lifecycle.dry_run dry h = h
dry_earned es id number _ dry h = absurd (ground arith)

Call-Earned : {t s : Tables} → Call t s → Earned t → Earned s
unfolding find_revision insert_revision new_revision advance set_lifecycle bind freeze_row
    is_revision
Call-Earned {t = t} {s = s} (stages d m source tests fixtures h e) k =
    let (_, written) = staged d m source tests fixtures t s h e in
    rw written
      (rows_snoc (λ row. earned t.evidence row ≡ true) t.revisions _ k (unfold earned_by in refl))
Call-Earned {t = t} {s = s} (records id n l result a e) k =
    let (row, found, may, good, written) = recorded id n l result a t s e in
    let (same_id, same_number) = keyed id n t found in
    let es = t.evidence ++ new_evidence id n l result a ∷ [] in
    let had : earned t.evidence row ≡ true =
      All-find_first (λ x. earned t.evidence x ≡ true) _ t.revisions k found in
    rw written (
      All-update_first (λ x. earned es x ≡ true) (is_revision id n) (set_lifecycle l) t.revisions
        found (rows_more t.evidence _ t.revisions k)
        (advanced_earned t.evidence id n row l result a same_id same_number may good had))
Call-Earned {t = t} {s = s} (freezes id n c m message h e) k =
    let (row, found, dry, _, written) = frozen_by id n c m message t s h e in
    let had : earned t.evidence row ≡ true =
      All-find_first (λ x. earned t.evidence x ≡ true) _ t.revisions k found in
    rw written (
      All-update_first (λ x. earned t.evidence x ≡ true) (is_revision id n) (freeze_row message)
        t.revisions found k
        (dry_earned t.evidence row.verifier_id row.revision row.lifecycle dry had))
Call-Earned (contracts_change cs) k = k

Calls-Earned : {t s : Tables} → Earned t → Calls t s → Earned s
Calls-Earned h here = h
Calls-Earned h (next path call) = Call-Earned call (Calls-Earned h path)

frozen_stages :
    (es : List EvidenceRow) (id : String) (number : ℕ) (l : Lifecycle)
    → is_frozen l ≡ true
    → earned_by es id number l ≡ true
    → (evidenced es id number Lifecycle.validated ≡ true)
      × (evidenced es id number Lifecycle.tested ≡ true)
      × (evidenced es id number Lifecycle.dry_run ≡ true)
unfolding earned_by
frozen_stages es id number Lifecycle.frozen f h = (ground arith, ground arith, ground arith)
frozen_stages es id number _ f h = absurd (ground arith)

-- From tables with no revision, whatever calls follow: a frozen revision has evidence that it was
-- validated, that its tests ran and that its dry run ran, each with `passed` true in it.
pub frozen_has_evidence :
    (t s : Tables) (id : String) (number : ℕ) (row : RevisionRow)
    → t.revisions ≡ []
    → Calls t s
    → find_revision id number s ≡ some row
    → is_frozen row.lifecycle ≡ true
    → (evidenced s.evidence id number Lifecycle.validated ≡ true)
      × (evidenced s.evidence id number Lifecycle.tested ≡ true)
      × (evidenced s.evidence id number Lifecycle.dry_run ≡ true)
unfolding find_revision
frozen_has_evidence t s id number row none_yet path found f =
    let start : Earned t = rw none_yet tt in
    let all_rows = Calls-Earned start path in
    let (same_id, same_number) = keyed id number s found in
    let here' = All-find_first (λ x. earned s.evidence x ≡ true) _ s.revisions all_rows found in
    frozen_stages s.evidence id number row.lifecycle f
      (rw (sym same_id) (rw (sym same_number) here'))
