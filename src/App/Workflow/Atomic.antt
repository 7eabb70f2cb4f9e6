-- ===== src/App/Workflow/Atomic.antt =====
-- What a command that fails leaves behind.
use mathlib.Core.Path.{subst}
use job_scout_ai.Prelude.{
  String, ◌≡◌, refl, Bool, true, not, Result, ok, err, Error, if◌then◌else◌,
  invalid_application_transition,
}
use job_scout_ai.Strings.{trim_space}
use job_scout_ai.Core.ApplicationStatus
use job_scout_ai.Store.{World}
use job_scout_ai.Store.Exec.{Exec, raise, restore, within_import_transaction, ◌>>=◌}
use job_scout_ai.Store.Exec.Ends.{
  Ends, Triple, Keeps, Triple-bind, Triple-if, Triple-weaken, Keeps-lift, Keeps-raise, keeps_rules,
}
use job_scout_ai.Store.Memory.{get_candidate_profile, get_application}
use job_scout_ai.App.Outcome.{outcome_from}
use job_scout_ai.App.{App, get_profile}
use job_scout_ai.App.View.{is_outcome_status}
use job_scout_ai.App.Workflow.{Command, prepare, approve, cancel, submit, outcome, perform}

module _ (start : World) where
  -- The database of the start, on a storage that rolls back.
  Unchanged : World → Type 0
  Unchanged w = (w.db ≡ start.db) × (w.rolls_back ≡ true)

  -- A failure leaves the database as it was.
  Atomic : {A : Type 0} → Exec A → Type 0
  Atomic m = Triple Unchanged m (λ a w. Unit {0}) (λ w. w.db ≡ start.db)

  restored :
      {A : Type 0} (w : World) (r : Result A) (w' : World)
      → w.db ≡ start.db
      → w.rolls_back ≡ true
      → Ends {A = A} (λ v. v.db ≡ start.db) (λ a v. Unit {0}) (restore w (r, w'))
  restored w (ok a) w' e f = tt
  restored w (err x) w' e f = rw f e

  transaction-Atomic : {A : Type 0} (m : Exec A) → Atomic (within_import_transaction m)
  unfolding within_import_transaction Atomic Unchanged
  transaction-Atomic m = record { at = λ w (e, f). let (r, w') = m w in restored w r w' e f }

  get_profile-Unchanged : Keeps Unchanged get_profile
  unfolding get_profile get_candidate_profile
  get_profile-Unchanged = search keeps_rules depth 12

  then-Atomic :
      {A B : Type 0} (m : Exec A) (f : A → Exec B)
      → Keeps Unchanged m
      → ((a : A) → Atomic (f a))
      → Atomic (m >>= f)
  unfolding Atomic Unchanged
  then-Atomic m f k rest =
      Triple-bind (λ a. Unchanged) m f (Triple-weaken m k (λ w h. h) (λ a w h. h) (λ w h. h.0)) rest

  outcome-Atomic :
      {A : Type 0} (b : Bool) (m : Exec A)
      → Atomic (if b then raise invalid_application_transition else within_import_transaction m)
  unfolding Atomic Unchanged
  outcome-Atomic b m =
      Triple-if b _ _
        (λ _.
          Triple-weaken (raise invalid_application_transition)
            (Keeps-raise {P = Unchanged} invalid_application_transition) (λ w h. h) (λ a w h. tt)
            (λ w h. h.0))
        (λ _. transaction-Atomic m)

  perform-Atomic : (app : App) (actor : String) (c : Command) → Atomic (perform app actor c)
  unfolding perform
  perform-Atomic app actor (prepare vacancy_id resume_id) =
      then-Atomic _ _ get_profile-Unchanged λ profile. transaction-Atomic _
  perform-Atomic app actor (approve id) =
      then-Atomic _ _ get_profile-Unchanged λ profile. transaction-Atomic _
  perform-Atomic app actor (cancel id) =
      then-Atomic _ _ get_profile-Unchanged λ profile. transaction-Atomic _
  perform-Atomic app actor (submit id) =
      then-Atomic _ _ get_profile-Unchanged λ profile. transaction-Atomic _
  perform-Atomic app actor (outcome id req) = then-Atomic _ _ get_profile-Unchanged λ profile.
      then-Atomic _ _ (Keeps-lift (ApplicationStatus.parse (trim_space req.status))) λ status.
        outcome-Atomic (not (is_outcome_status status))
          (get_application id >>= outcome_from app req status actor profile)

-- On a storage that rolls back, as Postgres does, a command that ends in an error leaves the database
-- exactly as it was, whatever the command wrote before it failed.
pub perform_failed :
    (app : App) (actor : String) (c : Command) (w w' : World) (e : Error)
    → w.rolls_back ≡ true
    → perform app actor c w ≡ (err e, w')
    → w'.db ≡ w.db
unfolding Atomic Unchanged
perform_failed app actor c w w' e rolls_back failed =
    subst (λ p. Ends (λ v. v.db ≡ w.db) (λ a v. Unit {0}) p) failed
      ((perform-Atomic w app actor c).at w (refl, rolls_back))
