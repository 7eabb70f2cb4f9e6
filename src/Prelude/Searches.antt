-- ===== src/Prelude/Searches.antt =====
-- Searches through a list by a test that decides a predicate.
use mathlib.Core.Path.{◌≡◌, refl}
use mathlib.Core.Logic.{◌↔◌, inl, inr}
use mathlib.Core.Bool.{Bool, true, false, ◌||◌}
use mathlib.Core.List.{List, [], ◌∷◌}
use native.Mathlib.Omega.{arith}
use job_scout_ai.Prelude.Tests.{Bool-cases}
use job_scout_ai.Prelude.Lists.{any, is_empty, All}

-- Some entry of the list.
pub data Some {ℓ κ} {A : Type ℓ} (P : A → Type κ) : List A → Type (ℓ ⊔ κ) where
  this : {x : A} {xs : List A} → P x → Some P (x ∷ xs)
  later : {x : A} {xs : List A} → Some P xs → Some P (x ∷ xs)

pub is_empty-nil : {A : Type 0} (xs : List A) → (is_empty xs ≡ true) ↔ (xs ≡ [])
is_empty-nil [] = (λ e. refl, λ e. refl)
is_empty-nil (x ∷ xs) = (λ e. absurd (cc), λ e. absurd (cc))

-- A search by a test that decides P.
module _ {A : Type 0} (p : A → Bool) (P : A → Type 0) (decides : (x : A) → (p x ≡ true) ↔ P x) where
  or_rest : (b : Bool) (xs : List A) → any p xs ≡ true → (b || any p xs) ≡ true
  or_rest true xs e = refl
  or_rest false xs e = e

  put :
      (x : A) (xs : List A)
      → (Some P xs → any p xs ≡ true)
      → Some P (x ∷ xs)
      → (p x || any p xs) ≡ true
  put x xs rest (this y) = rw ((decides x).1 y) refl
  put x xs rest (later s) = or_rest (p x) xs (rest s)

  pub any-Some : (xs : List A) → (any p xs ≡ true) ↔ Some P xs
  unfolding any
  any-Some [] = (λ e. absurd (cc), λ s. elim s [ ])
  any-Some (x ∷ xs) = (
    λ e. elim (Bool-cases (p x)) [
      | inl y ↦ this ((decides x).0 y)
      | inr n ↦ later ((any-Some xs).0 (rw n at e))
    ],
    put x xs (any-Some xs).1,
  )

  pub any-All_not : (xs : List A) → (any p xs ≡ false) ↔ All (λ x. ¬ P x) xs
  unfolding any
  any-All_not [] = (λ e. tt, λ h. refl)
  any-All_not (x ∷ xs) = (
    λ e. (λ y. absurd (ground (arith, (decides x).1 y)), (any-All_not xs).0 (ground arith)),
    λ h. elim (Bool-cases (p x)) [
      | inl y ↦ absurd (h.0 ((decides x).0 y))
      | inr n ↦ rw n ((any-All_not xs).1 h.1)
    ],
  )
