-- ===== src/Prelude/Lists.antt =====
-- Lists measured by native numbers, sets of texts, and what selects and updates rows.
use Prim.Native.Nat.{ℕ, suc, ◌+◌}
use Prim.Native.String.{String}
use mathlib.Core.Path.{◌≡◌, ap, ◌∙◌, subst}
use mathlib.Core.Bool.{Bool, true, false, not, ◌&&◌, ◌||◌}
use mathlib.Core.Option.{Option, none, some}
use mathlib.Core.List.{List, [], ◌∷◌, ◌++◌}
use native.Mathlib.Omega.{arith}
use text.Mathlib.Text.{◌==◌}
use mathlib.Core.Logic.{inl, inr}
use graph_engineering.Prelude.Tests.{Bool-cases, if◌then◌else◌, text_lt}

module _ {ℓ} {A : Type ℓ} where
  abbrev pub length : List A → ℕ
  length [] = 0
  length (x ∷ xs) = suc (length xs)

  pub length-append : (xs ys : List A) → length (xs ++ ys) ≡ length xs + length ys
  length-append [] ys = omega arith
  length-append (x ∷ xs) ys = omega (arith, length-append xs ys)

  abbrev pub All {κ} : (A → Type κ) → List A → Type κ
  All P [] = Unit
  All P (x ∷ xs) = P x × All P xs

  -- The first element that passes the test.
  unfoldable pub find_first : (A → Bool) → List A → Option A
  find_first p [] = none
  find_first p (x ∷ xs) = if p x then some x else find_first p xs

  unfoldable pub any : (A → Bool) → List A → Bool
  any p [] = false
  any p (x ∷ xs) = p x || any p xs

  unfoldable pub all : (A → Bool) → List A → Bool
  all p [] = true
  all p (x ∷ xs) = p x && all p xs

  unfoldable pub select : (A → Bool) → List A → List A
  select p [] = []
  select p (x ∷ xs) = let rest = select p xs in if p x then x ∷ rest else rest

  -- UPDATE ... WHERE: every row that passes the test is changed.
  unfoldable pub update_where : (A → Bool) → (A → A) → List A → List A
  update_where p f [] = []
  update_where p f (x ∷ xs) = (if p x then f x else x) ∷ update_where p f xs

  keep_least : (A → A → Bool) → A → Option A → Option A
  keep_least before x none = some x
  keep_least before x (some y) = if before y x then some y else some x

  -- The best row by a strict order on rows, the earliest among equals: ORDER BY ... LIMIT 1.
  unfoldable pub least : (A → A → Bool) → List A → Option A
  unfolding keep_least
  least before [] = none
  least before (x ∷ xs) = keep_least before x (least before xs)

-- Membership and repetition among texts.
unfoldable pub elem : String → List String → Bool
elem s [] = false
elem s (t ∷ ts) = s == t || elem s ts

unfoldable pub distinct : List String → Bool
unfolding elem
distinct [] = true
distinct (t ∷ ts) = not (elem t ts) && distinct ts

-- sorted(set(...)): ascending, each text once.
insert_text : String → List String → List String
insert_text s [] = s ∷ []
insert_text s (t ∷ ts) =
    if text_lt s t then s ∷ t ∷ ts else if s == t then t ∷ ts else t ∷ insert_text s ts

unfoldable pub sorted_set : List String → List String
unfolding insert_text
sorted_set [] = []
sorted_set (t ∷ ts) = insert_text t (sorted_set ts)

-- An update that keeps a property of rows.
pub All-update_where {ℓ κ} :
    {A : Type ℓ} {P : A → Type κ} (p : A → Bool) (f : A → A) (xs : List A)
    → ((x : A) → P x → P (f x))
    → All P xs
    → All P (update_where p f xs)
unfolding update_where
All-update_where p f [] keep h = h
All-update_where p f (x ∷ xs) keep h = (
  elim (Bool-cases (p x)) [ inl e ↦ rw e (keep x h.0) | inr e ↦ rw e h.0 ],
  All-update_where p f xs keep h.1,
)

-- What all rows have, the row that is found has.
pub All-find_first {ℓ κ} :
    {A : Type ℓ} (P : A → Type κ) (p : A → Bool) (xs : List A) {x : A}
    → All P xs
    → find_first p xs ≡ some x
    → P x
unfolding find_first
All-find_first P p [] h e = cc
All-find_first P p (y ∷ ys) {x = x} h e = elim (Bool-cases (p y)) [
  | inl t ↦ let same : y ≡ x = ground arith in subst P same h.0
  | inr t ↦ let later : find_first p ys ≡ some x = ground arith in All-find_first P p ys h.1 later
]

-- Where the first hit stands: nothing before it passes the test.
pub find_first-split {ℓ} :
    {A : Type ℓ} (p : A → Bool) (xs : List A) {x : A}
    → find_first p xs ≡ some x
    → (before : List A) × (after : List A) × (xs ≡ before ++ x ∷ after)
      × (p x ≡ true)
      × All (λ y. p y ≡ false) before
unfolding find_first
find_first-split p [] e = cc
find_first-split p (y ∷ ys) {x = x} e = elim (Bool-cases (p y)) [
  | inl t ↦
      let same : y ≡ x = ground arith in
      ([], ys, ap (λ z. z ∷ ys) same, subst (λ z. p z ≡ true) same t, tt)
  | inr t ↦
      let later : find_first p ys ≡ some x = ground arith in
      let (before, after, split, hit, misses) = find_first-split p ys later in
      (y ∷ before, after, ap (λ zs. y ∷ zs) split, hit, (t, misses))
]

pub find_first-none {ℓ} :
    {A : Type ℓ} (p : A → Bool) (xs : List A) → find_first p xs ≡ none → All (λ y. p y ≡ false) xs
unfolding find_first
find_first-none p [] e = tt
find_first-none p (y ∷ ys) e = elim (Bool-cases (p y)) [
  | inl t ↦ absurd (ground arith)
  | inr t ↦ let later : find_first p ys ≡ none = ground arith in (t, find_first-none p ys later)
]

-- A row that is appended is found where no row was.
pub find_first-snoc {ℓ} :
    {A : Type ℓ} (p : A → Bool) (xs : List A) (x : A)
    → find_first p xs ≡ none
    → p x ≡ true
    → find_first p (xs ++ x ∷ []) ≡ some x
unfolding find_first
find_first-snoc p [] x e t = rw t
find_first-snoc p (y ∷ ys) x e t = elim (Bool-cases (p y)) [
  | inl u ↦ absurd (ground arith)
  | inr u ↦
      let later : find_first p ys ≡ none = ground arith in rw u (find_first-snoc p ys x later t)
]

-- A row that is appended hides no row that was found.
pub find_first-append {ℓ} :
    {A : Type ℓ} (p : A → Bool) (xs ys : List A) {x : A}
    → find_first p xs ≡ some x
    → find_first p (xs ++ ys) ≡ some x
unfolding find_first
find_first-append p [] ys e = cc
find_first-append p (y ∷ xs) ys {x = x} e = elim (Bool-cases (p y)) [
  | inl t ↦ rw t (ground arith)
  | inr t ↦
      let later : find_first p xs ≡ some x = ground arith in rw t (find_first-append p xs ys later)
]

-- An update changes the row that its own test finds.
pub find_first-update_where {ℓ} :
    {A : Type ℓ} (p : A → Bool) (f : A → A) (xs : List A) {x : A}
    → ((y : A) → p (f y) ≡ p y)
    → find_first p xs ≡ some x
    → find_first p (update_where p f xs) ≡ some (f x)
unfolding find_first update_where
find_first-update_where p f [] keep e = cc
find_first-update_where p f (y ∷ ys) {x = x} keep e = elim (Bool-cases (p y)) [
  | inl t ↦ let same : y ≡ x = ground arith in rw t (rw (keep y ∙ t) (ap some (ap f same)))
  | inr t ↦
      let later : find_first p ys ≡ some x = ground arith in
      rw t (rw t (find_first-update_where p f ys keep later))
]
