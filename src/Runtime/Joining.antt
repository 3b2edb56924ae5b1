-- ===== src/Runtime/Joining.antt =====
-- Theorems on the aggregate of runtime/parallel.py.
use graph_engineering.Prelude.{
  ◌≤◌, String, true, false, ◌&&◌, some, List, [], ◌∷◌, ◌++◌, map, ◌≡◌, refl, arith, ok, ◌⊎◌, inl,
  inr, All, leb, if◌then◌else◌, sym, ◌∙◌,
}
use graph_engineering.Models.Results.{
  BranchStatus, BranchResult, ParallelResult, precedence, max_status, strictly_sorted,
  expected_status, failure_semantics_are_explicit, is_empty, canonical_aggregate_is_consistent,
  is_failed_branch, needs_error, same_status, check_error, matches_expected,
}
use graph_engineering.Runtime.Joins.{joined, join_results, branch_failures, aggregate_error}

-- The better of two, as max_status takes it.
abbrev higher : BranchStatus → BranchStatus → BranchStatus
higher s best = if leb (precedence s) (precedence best) then best else s

higher_above :
    (s best : BranchStatus)
    → (precedence s ≤ precedence (higher s best)) × (precedence best ≤ precedence (higher s best))
higher_above s best = ground arith

higher_one : (s best : BranchStatus) → (higher s best ≡ s) ⊎ (higher s best ≡ best)
higher_one s best = ground arith

-- The branches of the list stand at or below the status.
abbrev pub Below : BranchStatus → List BranchResult → Type 0
Below s = All (λ b. precedence b.status ≤ precedence s)

abbrev statuses : List BranchResult → List BranchStatus
statuses = map (λ b. b.status)

max_status_above :
    (best : BranchStatus) (bs : List BranchResult)
    → (precedence best ≤ precedence (max_status best (statuses bs)))
      × Below (max_status best (statuses bs)) bs
unfolding max_status
max_status_above best [] = (ground arith, tt)
max_status_above best (b ∷ bs) =
    let (a, rest) = max_status_above (higher b.status best) bs in
    let (low, low') = higher_above b.status best in (omega arith, (omega arith, rest))

-- The status of some branch of the list.
pub data Attained (s : BranchStatus) : List BranchResult → Type 0 where
  here : {b : BranchResult} {bs : List BranchResult} → b.status ≡ s → Attained s (b ∷ bs)
  there : {b : BranchResult} {bs : List BranchResult} → Attained s bs → Attained s (b ∷ bs)

max_status-Attained :
    (best : BranchStatus) (bs : List BranchResult)
    → (max_status best (statuses bs) ≡ best) ⊎ Attained (max_status best (statuses bs)) bs
unfolding max_status
max_status-Attained best [] = inl refl
max_status-Attained best (b ∷ bs) = elim (max_status-Attained (higher b.status best) bs) [
  | inl h ↦ elim (higher_one b.status best) [
    | inl k ↦ inr (here (sym (h ∙ k)))
    | inr k ↦ inl (h ∙ k)
  ]
  | inr h ↦ inr (there h)
]

not_empty : {A : Type 0} (xs ys : List A) → is_empty ys ≡ false → is_empty (xs ++ ys) ≡ false
not_empty [] ys h = h
not_empty (x ∷ xs) ys h = refl

-- Each branch passes its own validator, and the branches stand in the order of their ids.
abbrev pub Joinable : List BranchResult → Type 0
Joinable bs =
    (strictly_sorted (map (λ b. b.branch_id) bs) ≡ true)
    × All (λ b. failure_semantics_are_explicit b ≡ ok tt) bs

has_details :
    (b : BranchResult)
    → failure_semantics_are_explicit b ≡ ok tt
    → b.status ≡ BranchStatus.failed
    → is_empty b.failure_details ≡ false
unfolding failure_semantics_are_explicit
has_details b h e = ground arith

some_details :
    (b : BranchResult) (bs : List BranchResult)
    → is_empty b.failure_details ≡ false
    → is_empty (branch_failures (b ∷ bs)) ≡ false
unfolding branch_failures
some_details b bs h = ground arith

later_details :
    (b : BranchResult) (bs : List BranchResult)
    → is_empty (branch_failures bs) ≡ false
    → is_empty (branch_failures (b ∷ bs)) ≡ false
unfolding branch_failures
later_details b bs h = not_empty (map _ b.failure_details) (branch_failures bs) h

failed_has_details :
    (bs : List BranchResult)
    → All (λ b. failure_semantics_are_explicit b ≡ ok tt) bs
    → Attained BranchStatus.failed bs
    → is_empty (branch_failures bs) ≡ false
failed_has_details [] v a = elim a [ ]
failed_has_details (b ∷ bs) (v, vs) (here e) = some_details b bs (has_details b v e)
failed_has_details (b ∷ bs) (v, vs) (there k) = later_details b bs (failed_has_details bs vs k)

own_error : (s : BranchStatus) → check_error (needs_error s) (aggregate_error s) ≡ ok tt
unfolding check_error aggregate_error
own_error BranchStatus.error = refl
own_error BranchStatus.blocked = refl
own_error BranchStatus.failed = refl
own_error BranchStatus.succeeded = refl
own_error BranchStatus.cancelled = refl

details_given :
    (s : BranchStatus) (bs : List BranchResult)
    → Joinable bs
    → Attained s bs
    → (is_failed_branch s && is_empty (branch_failures bs)) ≡ false
details_given BranchStatus.failed bs (sorted, valid) a = failed_has_details bs valid a
details_given BranchStatus.error bs j a = refl
details_given BranchStatus.blocked bs j a = refl
details_given BranchStatus.succeeded bs j a = refl
details_given BranchStatus.cancelled bs j a = refl

own_status : (s : BranchStatus) → same_status s s ≡ true
own_status s = ground arith

accepted :
    (container : String) (bs : List BranchResult) (s : BranchStatus)
    → Joinable bs
    → expected_status bs ≡ some s
    → Attained s bs
    → canonical_aggregate_is_consistent (joined container bs s) ≡ ok tt
unfolding canonical_aggregate_is_consistent joined matches_expected
accepted container bs s j e a =
    rw (j.0, e) (rw (own_status s) (rw (details_given s bs j a) (own_error s)))

-- A container with at least one branch, each of which passes its own validator, and with the branches
-- in the order of their ids, has a result: the aggregate raises no exception, it lists exactly those
-- branches, and its status is that of some branch and stands at or above that of every branch.
pub join_results_joins :
    (container : String) (b : BranchResult) (bs : List BranchResult)
    → Joinable (b ∷ bs)
    → (p : ParallelResult) × (join_results container (b ∷ bs) ≡ ok (some p))
      × (p.branches ≡ b ∷ bs)
      × Attained p.status (b ∷ bs)
      × Below p.status (b ∷ bs)
unfolding join_results joined expected_status
join_results_joins container b bs j =
    let s = max_status b.status (statuses bs) in
    let (above, below) = max_status_above b.status bs in
    let attained : Attained s (b ∷ bs) = elim (max_status-Attained b.status bs) [
      | inl h ↦ here (sym h)
      | inr h ↦ there h
    ] in
    let ok' = accepted container (b ∷ bs) s j refl attained in
    (joined container (b ∷ bs) s, rw ok' refl, refl, attained, (above, below))
