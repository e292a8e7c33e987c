-- ===== src/Base/Tables.antt =====
-- Tables as lists of rows: the rows that pass a test are changed, and what a lookup then finds.
use mathlib.Core.Path.{◌≡◌, refl, subst}
use mathlib.Core.Logic.{inl, inr}
use mathlib.Core.Bool.{Bool, true, false}
use mathlib.Core.Option.{Option, none, some}
use mathlib.Core.List.{List, [], ◌∷◌, ◌++◌, map}
use birthub_360_innovation.Base.Tests.{if◌then◌else◌, Bool-cases}
use birthub_360_innovation.Base.Lists.{find, filter, All}

-- `update` and `updateMany`: the rows that pass the test are changed.
unfoldable pub update_where {ℓ} : {A : Type ℓ} → (A → Bool) → (A → A) → List A → List A
update_where p change = map (λ x. if p x then change x else x)

module _ {A : Type 0} where
  abbrev pub change_found : (A → Bool) → (A → A) → Option A → Option A
  change_found q f none = none
  change_found q f (some x) = some (if q x then f x else x)

  abbrev pub or_found : Option A → Option A → Option A
  or_found none o = o
  or_found (some x) o = some x

  -- A change that a test does not see changes what the test finds, and nothing else.
  pub find-update_where :
      (p q : A → Bool) (f : A → A)
      → ((x : A) → p (f x) ≡ p x)
      → (xs : List A) → find p (update_where q f xs) ≡ change_found q f (find p xs)
  unfolding update_where
  find-update_where p q f k [] = refl
  find-update_where p q f k (x ∷ xs) = elim (Bool-cases (q x)) [
    | inl hit ↦ elim (Bool-cases (p x)) [
      | inl found ↦ rw (hit, k x, found, hit)
      | inr other ↦ rw (hit, k x, other) (find-update_where p q f k xs)
    ]
    | inr miss ↦ elim (Bool-cases (p x)) [
      | inl found ↦ rw (miss, found, miss)
      | inr other ↦ rw (miss, other) (find-update_where p q f k xs)
    ]
  ]

  pub find-append :
      (p : A → Bool) (xs ys : List A) → find p (xs ++ ys) ≡ or_found (find p xs) (find p ys)
  find-append p [] ys = refl
  find-append p (x ∷ xs) ys = elim (Bool-cases (p x)) [
    | inl found ↦ rw found
    | inr other ↦ rw other (find-append p xs ys)
  ]

  -- What is found passes the test.
  pub find-passes : (p : A → Bool) (xs : List A) (x : A) → find p xs ≡ some x → p x ≡ true
  find-passes p [] x h = cc
  find-passes p (y ∷ ys) x h = elim (Bool-cases (p y)) [
    | inl found ↦
        let q : some y ≡ some x = rw found at h in let same : y ≡ x = cc q in rw (← same) found
    | inr other ↦ find-passes p ys x (rw other at h)
  ]

  -- Nothing passes a stronger test where nothing passes.
  pub find-none :
      (p q : A → Bool)
      → ((x : A) → p x ≡ false → q x ≡ false)
      → (xs : List A) → find p xs ≡ none
      → find q xs ≡ none
  find-none p q k [] h = refl
  find-none p q k (x ∷ xs) h = elim (Bool-cases (p x)) [
    | inl found ↦ cc (rw found at h)
    | inr other ↦ rw (k x other) (find-none p q k xs (rw other at h))
  ]

-- Predicates of every row.
pub All-append {ℓ} :
    {A : Type 0} (P : A → Type ℓ) (xs ys : List A) → All P xs → All P ys → All P (xs ++ ys)
All-append P [] ys h k = k
All-append P (x ∷ xs) ys h k = (h.0, All-append P xs ys h.1 k)

pub All-update_where {ℓ} :
    {A : Type 0} (P : A → Type ℓ) (p : A → Bool) (change : A → A) (xs : List A)
    → ((x : A) → P x → P (change x))
    → All P xs
    → All P (update_where p change xs)
unfolding update_where
All-update_where P p change [] k h = tt
All-update_where P p change (x ∷ xs) k h = elim (Bool-cases (p x)) [
  | inl hit ↦ rw hit (k x h.0, All-update_where P p change xs k h.1)
  | inr miss ↦ rw miss (h.0, All-update_where P p change xs k h.1)
]

pub All-find {ℓ} :
    {A : Type 0} (P : A → Type ℓ) (p : A → Bool) (xs : List A) (x : A)
    → All P xs
    → find p xs ≡ some x
    → P x
All-find P p [] x h e = absurd (cc e)
All-find P p (y ∷ ys) x h e = elim (Bool-cases (p y)) [
  | inl found ↦
      let q : some y ≡ some x = rw found at e in let same : y ≡ x = cc q in subst P same h.0
  | inr other ↦ All-find P p ys x h.1 (rw other at e)
]

pub All-filter {ℓ} :
    {A : Type 0} (P : A → Type ℓ) (p : A → Bool) (xs : List A) → All P xs → All P (filter p xs)
All-filter P p [] h = tt
All-filter P p (x ∷ xs) h = elim (Bool-cases (p x)) [
  | inl kept ↦ rw kept (h.0, All-filter P p xs h.1)
  | inr dropped ↦ rw dropped (All-filter P p xs h.1)
]
