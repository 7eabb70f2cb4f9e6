-- ===== src/Store/Vacancies.antt =====
-- How the states of the stored vacancies develop.
use mathlib.Core.Path.{subst}
use job_scout_ai.Prelude.{
  String, ◌≡◌, sym, ◌∙◌, ap, true, some, lookup, insert, lookup-insert_same, lookup-insert_other,
  Dict, Bool-cases, inl, inr, eq_iff, ◌==◌,
}
use job_scout_ai.Core.Types.{Vacancy}
use job_scout_ai.Core.VacancyStatus
use job_scout_ai.Core.VacancyStatus.{VacancyStatus}

-- Any number of moves that vacancyTransitions permits.
pub data Reaches (a : VacancyStatus) : VacancyStatus → Type 0 where
  stay : Reaches a a
  move :
      {b : VacancyStatus}
      → Reaches a b
      → (c : VacancyStatus) → VacancyStatus.can_transition b c ≡ true
      → Reaches a c

-- A vacancy is stored under its own identifier.
abbrev pub Keyed : Dict Vacancy → Type 0
Keyed vacancies = (i : String) (v : Vacancy) → lookup i vacancies ≡ some v → v.id ≡ i

-- No vacancy is lost, and each is where permitted moves lead from where it was.
abbrev pub Moved : Dict Vacancy → Dict Vacancy → Type 0
Moved before after =
    (i : String) (v : Vacancy)
    → lookup i before ≡ some v
    → (u : Vacancy) × (lookup i after ≡ some u) × Reaches v.status u.status

module _ (vacancies : Dict Vacancy) (v v' : Vacancy) (k : String) where
  pub insert-Keyed : Keyed vacancies → v'.id ≡ k → Keyed (insert k v' vacancies)
  insert-Keyed keyed e i u found = elim (Bool-cases (k == i)) [
    | inl y ↦
        let same : some v' ≡ some u = sym (lookup-insert_same k i v' vacancies y) ∙ found in
        let p : v' ≡ u = cc in ap (λ z. z.id) (sym p) ∙ e ∙ (eq_iff k i).0 y
    | inr n ↦ keyed i u (sym (lookup-insert_other k i v' vacancies n) ∙ found)
  ]

  pub insert-Moved :
      (before : Dict Vacancy)
      → Moved before vacancies
      → lookup k vacancies ≡ some v
      → VacancyStatus.can_transition v.status v'.status ≡ true
      → Moved before (insert k v' vacancies)
  insert-Moved before moved here can i u found =
      let (x, at_x, r) = moved i u found in
      elim (Bool-cases (k == i)) [
        | inl y ↦
            let spot : lookup i vacancies ≡ some v =
              subst (λ j. lookup j vacancies ≡ some v) ((eq_iff k i).0 y) here in
            let p : x ≡ v = cc in
            (
              v',
              lookup-insert_same k i v' vacancies y,
              move (subst (λ z. Reaches u.status z.status) p r) v'.status can,
            )
        | inr n ↦ (x, lookup-insert_other k i v' vacancies n ∙ at_x, r)
      ]
