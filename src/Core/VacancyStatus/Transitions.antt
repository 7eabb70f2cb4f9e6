-- ===== src/Core/VacancyStatus/Transitions.antt =====
-- Where the moves between the states of a vacancy lead.
use job_scout_ai.Prelude.{
  ℕ, zero, suc, ◌+◌, ◌≤◌, ◌<◌, ◌≡◌, refl, ap, ◌≢◌, true, false, arith, any, All, any-All,
}
use job_scout_ai.Core.VacancyStatus.{
  VacancyStatus, discovered, normalized, recommended, application_prepared, waiting_approval,
  submitted, viewed, hr_contact, interview, archived, other, same, valid, vacancy_transitions,
  can_transition,
}
use job_scout_ai.Core.VacancyStatus.Text.{same-eq}

-- How far a state is along the life of a vacancy.
abbrev pub rank : VacancyStatus → ℕ
rank discovered = 0
rank normalized = 1
rank recommended = 2
rank application_prepared = 3
rank waiting_approval = 4
rank submitted = 5
rank viewed = 6
rank hr_contact = 7
rank interview = 8
rank archived = 10
rank _ = 9

abbrev Ahead : VacancyStatus → VacancyStatus → Type 0
Ahead a b = (rank a < rank b) × (valid b ≡ true)

transitions-Ahead : (a : VacancyStatus) → All (Ahead a) (vacancy_transitions a)
unfolding vacancy_transitions valid
transitions-Ahead discovered = ground arith
transitions-Ahead _ = ground arith

-- A permitted move to another declared state goes forward.
pub can_transition-Ahead :
    (a b : VacancyStatus)
    → valid b ≡ true
    → can_transition a b ≡ true
    → same a b ≡ false
    → rank a < rank b
unfolding can_transition
can_transition-Ahead a b vb h ne =
    let listed : any (same b) (vacancy_transitions a) ≡ true = rw ne at h in
    let (x, (lt, vx), e) =
      any-All (Ahead a) (same b) (vacancy_transitions a) listed (transitions-Ahead a) in
    rw (same-eq b x vb vx e) lt

-- A history of `n` moves, each to another state.
pub data Moves (a : VacancyStatus) : VacancyStatus → ℕ → Type 0 where
  here : Moves a a zero
  next :
      {b : VacancyStatus} {n : ℕ}
      → Moves a b n
      → (c : VacancyStatus) → valid c ≡ true
      → can_transition b c ≡ true
      → same b c ≡ false
      → Moves a c (suc n)

Moves-rank : {a b : VacancyStatus} {n : ℕ} → Moves a b n → n + rank a ≤ rank b
Moves-rank here = omega arith
Moves-rank (next {b} {n} m c vc h ne) =
    omega (arith, Moves-rank m, can_transition-Ahead b c vc h ne)

rank-le : (s : VacancyStatus) → rank s ≤ 10
rank-le discovered = omega arith
rank-le _ = omega arith

-- No vacancy makes more than ten moves, and a vacancy that has moved is never back in the state in
-- which it was.
pub vacancy_Moves_bound : {a b : VacancyStatus} {n : ℕ} → Moves a b n → (n ≤ 10) × (0 < n → a ≢ b)
vacancy_Moves_bound {a} {b} {n} m =
    (omega (arith, Moves-rank m, rank-le b), λ h e. absurd (omega (arith, Moves-rank m, ap rank e)))

-- A declared state can be archived, and what is archived stays so.
pub can_transition-archived :
    (s : VacancyStatus)
    → valid s ≡ true
    → (can_transition s archived ≡ true) × (can_transition archived s ≡ true → s ≡ archived)
unfolding can_transition valid
can_transition-archived (other s) v = absurd (cc)
can_transition-archived discovered v = (refl, λ e. absurd (cc))
can_transition-archived archived v = (refl, λ e. refl)
can_transition-archived _ v = (refl, λ e. absurd (cc))
