-- ===== src/Core/ApplicationStatus/Transitions.antt =====
-- Where the moves between the states of an application lead.
use job_scout_ai.Prelude.{
  ℕ, zero, suc, ◌+◌, ◌≤◌, ◌<◌, ◌≡◌, refl, ap, ◌≢◌, true, false, arith, any, All, any-All, ◌↔◌,
}
use job_scout_ai.Core.ApplicationStatus.{
  ApplicationStatus, draft, waiting_approval, approved, manual_action_required, submitted,
  cancelled, hr_contact, interview, offer, rejected, other, same, valid, application_transitions,
  can_transition, is_terminal,
}
use job_scout_ai.Core.ApplicationStatus.Text.{same-eq}

-- How far a state is along the life of an application.
abbrev pub rank : ApplicationStatus → ℕ
rank draft = 0
rank waiting_approval = 1
rank approved = 2
rank manual_action_required = 3
rank submitted = 4
rank hr_contact = 5
rank interview = 6
rank _ = 7

abbrev Ahead : ApplicationStatus → ApplicationStatus → Type 0
Ahead a b = (rank a < rank b) × (valid b ≡ true)

transitions-Ahead : (a : ApplicationStatus) → All (Ahead a) (application_transitions a)
unfolding application_transitions valid
transitions-Ahead draft = ground arith
transitions-Ahead _ = ground arith

-- A permitted move to another declared state goes forward.
pub can_transition-Ahead :
    (a b : ApplicationStatus)
    → valid b ≡ true
    → can_transition a b ≡ true
    → same a b ≡ false
    → rank a < rank b
unfolding can_transition
can_transition-Ahead a b vb h ne =
    let listed : any (same b) (application_transitions a) ≡ true = rw ne at h in
    let (x, (lt, vx), e) =
      any-All (Ahead a) (same b) (application_transitions a) listed (transitions-Ahead a) in
    rw (same-eq b x vb vx e) lt

-- A history of `n` moves, each to another state.
pub data Moves (a : ApplicationStatus) : ApplicationStatus → ℕ → Type 0 where
  here : Moves a a zero
  next :
      {b : ApplicationStatus} {n : ℕ}
      → Moves a b n
      → (c : ApplicationStatus) → valid c ≡ true
      → can_transition b c ≡ true
      → same b c ≡ false
      → Moves a c (suc n)

Moves-rank : {a b : ApplicationStatus} {n : ℕ} → Moves a b n → n + rank a ≤ rank b
Moves-rank here = omega arith
Moves-rank (next {b} {n} m c vc h ne) =
    omega (arith, Moves-rank m, can_transition-Ahead b c vc h ne)

rank-le : (s : ApplicationStatus) → rank s ≤ 7
rank-le draft = omega arith
rank-le _ = omega arith

-- No application makes more than seven moves, and an application that has moved is never back in the
-- state in which it was.
pub application_Moves_bound :
    {a b : ApplicationStatus} {n : ℕ} → Moves a b n → (n ≤ 7) × (0 < n → a ≢ b)
application_Moves_bound {a} {b} {n} m =
    (omega (arith, Moves-rank m, rank-le b), λ h e. absurd (omega (arith, Moves-rank m, ap rank e)))

-- A move that `is_terminal` must rule out.
abbrev pub Leaves : ApplicationStatus → ApplicationStatus → Type 0
Leaves a b = (valid b ≡ true) × (can_transition a b ≡ true) × (same a b ≡ false)

-- Exactly the terminal states are those that no move leaves for another declared state.
is_terminal_iff :
    (a : ApplicationStatus)
    → valid a ≡ true
    → (is_terminal a ≡ true) ↔ ((b : ApplicationStatus) → ¬ Leaves a b)
unfolding is_terminal can_transition valid
is_terminal_iff (other s) v = absurd (cc)
is_terminal_iff draft v = ((λ e. absurd (cc)), (λ h. absurd (h cancelled (refl, refl, refl))))
is_terminal_iff offer v = ((λ e b l. ground arith), (λ h. refl))
is_terminal_iff rejected v = ((λ e b l. ground arith), (λ h. refl))
is_terminal_iff cancelled v = ((λ e b l. ground arith), (λ h. refl))
is_terminal_iff submitted v = ((λ e. absurd (cc)), (λ h. absurd (h rejected (refl, refl, refl))))
is_terminal_iff hr_contact v = ((λ e. absurd (cc)), (λ h. absurd (h rejected (refl, refl, refl))))
is_terminal_iff interview v = ((λ e. absurd (cc)), (λ h. absurd (h rejected (refl, refl, refl))))
is_terminal_iff _ v = ((λ e. absurd (cc)), (λ h. absurd (h cancelled (refl, refl, refl))))
