-- ===== src/Store/Lists/Pages.antt =====
-- internal/store/memory/memory.go, ListVacancies: the slice that is a page.
use job_scout_ai.Prelude.{
  ℕ, zero, suc, ◌*◌, ◌%◌, ◌^◌, ◌≤◌, ◌<◌, ◌≡◌, refl, List, [], ◌∷◌, length, take, drop, ltb, arith,
  ok, Bool-cases, inl, inr,
}
use job_scout_ai.Store.Lists.{page_of}

module _ {ℓ} {A : Type ℓ} where
  drop-nil : (n : ℕ) (xs : List A) → length xs ≤ n → drop n xs ≡ []
  drop-nil zero [] le = refl
  drop-nil zero (x ∷ xs) le = absurd (omega arith)
  drop-nil (suc n) [] le = refl
  drop-nil (suc n) (x ∷ xs) le = drop-nil n xs (omega arith)

  take-nil : (n : ℕ) (xs : List A) → xs ≡ [] → take n xs ≡ []
  take-nil zero xs e = refl
  take-nil (suc n) [] e = refl
  take-nil (suc n) (x ∷ xs) e = absurd (cc)

  -- The early answer for a start beyond the end is what the slice would be.
  pub page_of-slice :
      (page per_page : ℕ) (items : List A)
      → page * per_page < 2 ^ 63
      → page_of page per_page items ≡ ok (take per_page (drop (page * per_page) items))
  unfolding page_of
  page_of-slice page per_page items lt =
      let small : (page * per_page) % 2 ^ 64 ≡ page * per_page = omega (arith, lt) in
      rw small (elim (Bool-cases (ltb (length items) (page * per_page))) [
        | inl beyond ↦
            ground (arith, take-nil per_page _ (drop-nil (page * per_page) items (ground arith)))
        | inr within ↦ ground arith
      ])
