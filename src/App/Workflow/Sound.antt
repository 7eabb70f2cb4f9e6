-- ===== src/App/Workflow/Sound.antt =====
-- What no history of commands can break.
use job_scout_ai.Prelude.{
  String, ◌≡◌, refl, true, not, List, [], ◌∷◌, Result, ok, err, invalid_application_transition,
  arith,
}
use job_scout_ai.Core.Types.{Application}
use job_scout_ai.Strings.{trim_space}
use job_scout_ai.Core.ApplicationStatus
use job_scout_ai.Core.ApplicationStatus.{ApplicationStatus}
use job_scout_ai.Store.{World}
use job_scout_ai.Store.Exec.{Exec, within_import_transaction, ◌>>=◌}
use job_scout_ai.Store.Exec.Ends.{
  Triple, Keeps, Triple-bind, Triple-if, Keeps-bind, Keeps-raise, Keeps-lift, Ends,
}
use job_scout_ai.Store.Memory.{get_application}
use job_scout_ai.Store.Applications.{Sound, Follows, Fresh, stay}
use job_scout_ai.Store.Applications.Rules.{Good, At, get-Triple}
use job_scout_ai.Store.Applications.Transaction.{Keeps-transaction}
use job_scout_ai.App.{App}
use job_scout_ai.App.View.{ApplicationView, is_outcome_status}
use job_scout_ai.App.Applications.{approve_from, cancel_from, submit_from}
use job_scout_ai.App.Outcome.{outcome_from}
use job_scout_ai.App.Workflow.{Command, prepare, approve, cancel, submit, outcome, perform, history}
use job_scout_ai.App.Workflow.Actions.{
  get_profile-Keeps, approve_from-Good, cancel_from-Good, submit_from-Good,
}
use job_scout_ai.App.Workflow.Writes.{outcome_from-Good, prepare-Good}

-- A transaction that reads an application and goes on from it.
on_application :
    (id : String) (f : Application → Exec ApplicationView)
    → ((start : World) (a : Application)
        → Triple (At start a a.status) (f a) (λ _. Good start) (Good start))
    → (start : World) → Keeps (Good start) (within_import_transaction (get_application id >>= f))
on_application id f goes = Keeps-transaction (get_application id >>= f) λ start.
    Triple-bind (λ a. At start a a.status) (get_application id) f (get-Triple start id) (goes start)

is_outcome_status-valid :
    (s : ApplicationStatus) → is_outcome_status s ≡ true → ApplicationStatus.valid s ≡ true
unfolding is_outcome_status ApplicationStatus.valid
is_outcome_status-valid ApplicationStatus.hr_contact h = refl
is_outcome_status-valid ApplicationStatus.interview h = refl
is_outcome_status-valid ApplicationStatus.offer h = refl
is_outcome_status-valid ApplicationStatus.rejected h = refl
is_outcome_status-valid _ h = absurd (cc)

module _ (app : App) (actor : String) where
  pub perform-Good : (start : World) (c : Command) → Keeps (Good start) (perform app actor c)
  unfolding perform
  perform-Good start (prepare vacancy_id resume_id) = Keeps-bind _ _ get_profile-Keeps λ profile.
      Keeps-transaction _ (λ s. prepare-Good app profile resume_id actor vacancy_id) start
  perform-Good start (approve id) = Keeps-bind _ _ get_profile-Keeps λ profile.
      on_application id (λ a. approve_from app a.status actor profile a)
        (λ s a. approve_from-Good app a.status actor profile a) start
  perform-Good start (cancel id) = Keeps-bind _ _ get_profile-Keeps λ profile.
      on_application id (λ a. cancel_from app a.status actor profile a)
        (λ s a. cancel_from-Good app a.status actor profile a) start
  perform-Good start (submit id) = Keeps-bind _ _ get_profile-Keeps λ profile.
      on_application id (λ a. submit_from app a.status actor profile a)
        (λ s a. submit_from-Good app a.status actor profile a) start
  perform-Good start (outcome id req) = Keeps-bind _ _ get_profile-Keeps λ profile.
      Triple-bind (λ status. Good start) _ _
        (Keeps-lift (ApplicationStatus.parse (trim_space req.status)))
        λ status.
          Triple-if (not (is_outcome_status status)) _ _
            (λ _. Keeps-raise invalid_application_transition)
            (λ e.
              on_application id (λ a. outcome_from app req status actor profile a)
                (λ s a.
                  outcome_from-Good app req status actor profile a
                    (is_outcome_status-valid status (ground arith)))
                start)

  perform-Ends :
      (start : World) (c : Command) (r : Result ApplicationView) (w : World)
      → Ends (Good start) (λ _. Good start) (r, w)
      → Good start w
  perform-Ends start c (ok v) w h = h
  perform-Ends start c (err e) w h = h

module _ (app : App) where
  history-Good :
      (start : World) (cs : List (String × Command)) (w : World)
      → Good start w
      → Good start (history app cs w)
  unfolding history
  history-Good start [] w g = g
  history-Good start ((actor, c) ∷ cs) w g =
      let (r, w') = perform app actor c w in
      history-Good start cs w'
        (perform-Ends app actor start c r w' ((perform-Good app actor start c).at w g))

  pub begin : (w : World) → Sound w.db.applications → Fresh w → Good w w
  begin w sound fresh = record {
    sound = sound;
    follows = λ i a e. (a, e, stay);
    fresh = fresh;
    same_ids = refl;
    later = omega arith;
  }

  -- After any history of commands, successful or failing, on a storage of either kind, from stored
  -- applications that are sound and with identifiers still to be drawn that are fresh: every application is
  -- stored under its own identifier, which is not empty, its status is declared, and two active
  -- applications for the same vacancy and profile are the same one.
  pub history-Sound :
      (cs : List (String × Command)) (w : World)
      → Sound w.db.applications
      → Fresh w
      → Sound (history app cs w).db.applications
  history-Sound cs w sound fresh = (history-Good w cs w (begin w sound fresh)).sound

  -- After any history of commands, successful or failing, from sound applications and fresh identifiers,
  -- every application that was stored is still stored, and applicationTransitions leads from its status at
  -- the beginning to its status at the end.
  pub history-Follows :
      (cs : List (String × Command)) (w : World)
      → Sound w.db.applications
      → Fresh w
      → Follows w.db.applications (history app cs w).db.applications
  history-Follows cs w sound fresh = (history-Good w cs w (begin w sound fresh)).follows
