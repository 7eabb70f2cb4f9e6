-- ===== src/Prelude/Members.antt =====
-- The entries of a list, as evidence of where they stand.
use mathlib.Core.Path.{◌≡◌, subst}
use mathlib.Core.Logic.{inl, inr}
use mathlib.Core.Bool.{Bool, true}
use mathlib.Core.Option.{some}
use mathlib.Core.List.{List, [], ◌∷◌}
use job_scout_ai.Prelude.Tests.{Bool-cases}
use job_scout_ai.Prelude.Lists.{find, keep, All}

-- An entry of the list.
pub data In {ℓ} {A : Type ℓ} (x : A) : List A → Type ℓ where
  here : {xs : List A} → In x (x ∷ xs)
  there : {y : A} {xs : List A} → In x xs → In x (y ∷ xs)

module _ {ℓ} {A : Type ℓ} where
  pub find-In : (p : A → Bool) (xs : List A) (a : A) → find p xs ≡ some a → In a xs
  unfolding find
  find-In p [] a e = absurd (cc)
  find-In p (x ∷ xs) a e = elim (Bool-cases (p x)) [
    | inl y ↦ subst (λ z. In z (x ∷ xs)) (cc (rw y at e)) here
    | inr n ↦ there (find-In p xs a (rw n at e))
  ]

  kept :
      (p : A → Bool) (x : A) (xs ys : List A) (a : A)
      → p x ≡ true
      → (In a ys → In a xs × (p a ≡ true))
      → In a (x ∷ ys)
      → In a (x ∷ xs) × (p a ≡ true)
  kept p x xs ys a y rest here = (here, y)
  kept p x xs ys a y rest (there j) = let (k, e) = rest j in (there k, e)

  pub keep-In : (p : A → Bool) (xs : List A) (a : A) → In a (keep p xs) → In a xs × (p a ≡ true)
  unfolding keep
  keep-In p [] a i = elim i [ ]
  keep-In p (x ∷ xs) a i = elim (Bool-cases (p x)) [
    | inl y ↦ kept p x xs (keep p xs) a y (keep-In p xs a) (rw y at i)
    | inr n ↦ let (j, e) = keep-In p xs a (rw n at i) in (there j, e)
  ]

pub All-In {ℓ κ} :
    {A : Type ℓ} (P : A → Type κ) (xs : List A) → ((a : A) → In a xs → P a) → All P xs
All-In P [] h = tt
All-In P (x ∷ xs) h = (h x here, All-In P xs λ a i. h a (there i))

pub In-All {ℓ κ} : {A : Type ℓ} (P : A → Type κ) (xs : List A) → All P xs → (a : A) → In a xs → P a
In-All P [] h a i = elim i [ ]
In-All P (x ∷ xs) h a here = h.0
In-All P (x ∷ xs) h a (there i) = In-All P xs h.1 a i

-- What passes the test is kept.
pub In-keep {ℓ} :
    {A : Type ℓ} (p : A → Bool) (xs : List A) (a : A) → In a xs → p a ≡ true → In a (keep p xs)
unfolding keep
In-keep p [] a i e = elim i [ ]
In-keep p (x ∷ xs) a here e = rw e here
In-keep p (x ∷ xs) a (there i) e = elim (Bool-cases (p x)) [
  | inl y ↦ rw y (there (In-keep p xs a i e))
  | inr n ↦ rw n (In-keep p xs a i e)
]

module _ {ℓ} {A : Type ℓ} where
  -- The rest of a list may be replaced.
  pub In-under : (x y : A) (xs ys : List A) → (In x xs → In x ys) → In x (y ∷ xs) → In x (y ∷ ys)
  In-under x y xs ys f here = here
  In-under x y xs ys f (there i) = there (f i)

  -- The first two entries may be exchanged.
  pub In-swap : (x y z : A) (xs : List A) → In x (y ∷ z ∷ xs) → In x (z ∷ y ∷ xs)
  In-swap x y z xs here = there here
  In-swap x y z xs (there here) = here
  In-swap x y z xs (there (there i)) = there (there i)
