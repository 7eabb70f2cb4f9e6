-- ===== src/Store/Applications.antt =====
-- What holds of the stored applications at every moment, and how their states develop.
pub mod Write
pub mod Rules
pub mod Transaction
pub mod Elsewhere
use job_scout_ai.Prelude.{
  ℕ, ◌≤◌, String, ◌≡◌, refl, ◌≢◌, Bool, true, false, Option, none, some, lookup, Dict,
}
use job_scout_ai.Strings.{is_nil}
use job_scout_ai.Core.Types.{Application}
use job_scout_ai.Core.ApplicationStatus
use job_scout_ai.Core.ApplicationStatus.{ApplicationStatus}
use job_scout_ai.Store.{Db, World}
use job_scout_ai.Store.Memory.{is_active}

-- Any number of permitted moves.
pub data Leads (a : ApplicationStatus) : ApplicationStatus → Type 0 where
  stay : Leads a a
  move :
      {b : ApplicationStatus}
      → Leads a b
      → (c : ApplicationStatus) → ApplicationStatus.can_transition b c ≡ true
      → Leads a c

pub Leads-trans : {a b c : ApplicationStatus} → Leads a b → Leads b c → Leads a c
Leads-trans l stay = l
Leads-trans l (move m c h) = move (Leads-trans l m) c h

-- An application is stored under its own identifier, which is not empty, in a declared state, and no two
-- active ones stand for the same vacancy and profile.
pub record Sound (applications : Dict Application) : Type 0 where
  pub keyed : (i : String) (a : Application) → lookup i applications ≡ some a → a.id ≡ i
  pub named : (i : String) (a : Application) → lookup i applications ≡ some a → is_nil i ≡ false
  pub declared :
      (i : String) (a : Application)
      → lookup i applications ≡ some a
      → ApplicationStatus.valid a.status ≡ true
  pub unique :
      (i j : String) (a b : Application)
      → lookup i applications ≡ some a
      → lookup j applications ≡ some b
      → is_active a ≡ true
      → is_active b ≡ true
      → a.vacancy_id ≡ b.vacancy_id
      → a.candidate_profile_id ≡ b.candidate_profile_id
      → i ≡ j

-- No application is lost, and each is where permitted moves lead from where it was.
abbrev pub Follows : Dict Application → Dict Application → Type 0
Follows before after =
    (i : String) (a : Application)
    → lookup i before ≡ some a
    → (b : Application) × (lookup i after ≡ some b) × Leads a.status b.status

-- The identifiers still to be drawn are not empty, differ from each other and from those in use. This is
-- what the random identifiers of core.NewID are for.
pub record Fresh (w : World) : Type 0 where
  pub not_empty : (n : ℕ) → w.drawn ≤ n → is_nil (w.ids n) ≡ false
  pub distinct : (n m : ℕ) → w.drawn ≤ n → w.drawn ≤ m → w.ids n ≡ w.ids m → n ≡ m
  pub unused : (n : ℕ) → w.drawn ≤ n → lookup (w.ids n) w.db.applications ≡ none
