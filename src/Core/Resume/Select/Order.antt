-- ===== src/Core/Resume/Select/Order.antt =====
-- What the sorting of the scored resumes does to the list.
use job_scout_ai.Prelude.{◌≤◌, ◌≡◌, true, false, List, [], ◌∷◌, All, arith, Bool-cases, inl, inr}
use job_scout_ai.Core.Resume.Select.{ScoredResume, less, insert_stable, sort_stable}

-- No entry of the list has a higher score.
abbrev pub Top : ScoredResume → List ScoredResume → Type 0
Top best = All (λ s. s.score ≤ best.score)

abbrev pub First : List ScoredResume → Type 0
First [] = Unit
First (best ∷ r) = Top best (best ∷ r)

Top-weaken : (a b : ScoredResume) (r : List ScoredResume) → Top a r → a.score ≤ b.score → Top b r
Top-weaken a b [] t le = tt
Top-weaken a b (c ∷ r) t le = (omega (arith, t.0), Top-weaken a b r t.1 le)

insert_stable-Top :
    (a c : ScoredResume) (r : List ScoredResume)
    → Top c r
    → a.score ≤ c.score
    → Top c (insert_stable a r)
unfolding insert_stable
insert_stable-Top a c [] t le = (le, tt)
insert_stable-Top a c (b ∷ r) t le = elim (Bool-cases (less b a)) [
  | inl y ↦ rw y (t.0, insert_stable-Top a c r t.1 le)
  | inr n ↦ rw n (le, t)
]

less-score :
    (a b : ScoredResume)
    → (less a b ≡ true → b.score ≤ a.score) × (less a b ≡ false → a.score ≤ b.score)
unfolding less
less-score a b = (λ e. ground arith, λ e. ground arith)

insert_stable-First :
    (a : ScoredResume) (r : List ScoredResume) → First r → First (insert_stable a r)
unfolding insert_stable
insert_stable-First a [] f = (omega arith, tt)
insert_stable-First a (b ∷ r) f = elim (Bool-cases (less b a)) [
  | inl y ↦ rw y (f.0, insert_stable-Top a b r f.1 ((less-score b a).0 y))
  | inr n ↦ rw n (omega arith, ((less-score b a).1 n, Top-weaken b a r f.1 ((less-score b a).1 n)))
]

pub sort_stable-First : (r : List ScoredResume) → First (sort_stable r)
unfolding sort_stable
sort_stable-First [] = tt
sort_stable-First (a ∷ r) = insert_stable-First a (sort_stable r) (sort_stable-First r)

-- Sorting keeps what holds of all entries, and loses none of them.
module _ (P : ScoredResume → Type 0) where
  All-insert_stable :
      (a : ScoredResume) (r : List ScoredResume)
      → (P a → All P r → All P (insert_stable a r)) × (All P (insert_stable a r) → P a × All P r)
  unfolding insert_stable
  All-insert_stable a [] = (λ p h. (p, h), λ h. h)
  All-insert_stable a (b ∷ r) =
      let (to, from) = All-insert_stable a r in
      elim (Bool-cases (less b a)) [
        | inl y ↦ (
          λ p h. rw y (h.0, to p h.1),
          λ h.
              let (at_b, rest) : P b × All P (insert_stable a r) = rw y at h in
              ((from rest).0, (at_b, (from rest).1)),
        )
        | inr n ↦ (λ p h. rw n (p, h), λ h. let k : P a × (P b × All P r) = rw n at h in k)
      ]

  pub All-sort_stable :
      (r : List ScoredResume)
      → (All P r → All P (sort_stable r)) × (All P (sort_stable r) → All P r)
  unfolding sort_stable
  All-sort_stable [] = (λ h. h, λ h. h)
  All-sort_stable (a ∷ r) =
      let (to, from) = All-sort_stable r in
      let (put, get) = All-insert_stable a (sort_stable r) in
      (λ h. put h.0 (to h.1), λ h. ((get h).0, from (get h).1))
