-- ===== src/App/Vacancies/Change.antt =====
-- internal/app/app.go, UpdateVacancyStatus: what a manual change of a vacancy's state leaves behind.
use mathlib.Core.Path.{subst}
use job_scout_ai.Prelude.{
  String, ◌≡◌, refl, sym, ◌∙◌, ap, true, false, not, ◌&&◌, Option, some, none, lookup, insert,
  arith, if◌then◌else◌, Result, ok, err, Error, not_found, invalid_status_change,
}
use job_scout_ai.Core.Types.{Vacancy}
use job_scout_ai.Core.VacancyStatus
use job_scout_ai.Core.VacancyStatus.{VacancyStatus}
use job_scout_ai.Store.{Db, World}
use job_scout_ai.Store.Exec.{finds, or_error, modify, ◌>>◌}
use job_scout_ai.Store.Exec.Ends.{
  Ends, Triple, Triple-bind, Triple-if, Triple-raise, Keeps, keeps_rules,
}
use job_scout_ai.Store.Memory.{
  get_vacancy, update_vacancy_status, get_company_by_id, get_vacancy_match,
}
use job_scout_ai.Store.Lists.{VacancyWithMatch}
use job_scout_ai.App.Vacancies.{change_vacancy_status, get_vacancy_with_match}

-- The database is this one.
record Now (d : Db) (w : World) : Type 0 where
  is : w.db ≡ d

-- The vacancies with a new state for one of them, where it exists and vacancyTransitions permits that.
abbrev pub moved : String → VacancyStatus → Db → Option Vacancy → Db
moved id status d none = d
moved id status d (some v) =
    if VacancyStatus.valid status && VacancyStatus.can_transition v.status status
    then record d { vacancies = insert id (record v { status = status }) d.vacancies }
    else d

module _ {A : Type 0} (d : Db) (R : World → Type 0) (Q : A → World → Type 0) where
  read-Ends :
      (e : Error) (o : Option A) (w : World)
      → ((a : A) → o ≡ some a → Q a w)
      → (o ≡ none → R w)
      → Ends R Q (or_error e o, w)
  read-Ends e none w good bad = bad refl
  read-Ends e (some a) w good bad = good a refl

  read-Triple :
      (e : Error) (f : Db → Option A)
      → ((a : A) (w : World) → f d ≡ some a → Now d w → Q a w)
      → ((w : World) → f d ≡ none → Now d w → R w)
      → Triple (Now d) (finds e f) Q R
  unfolding finds
  read-Triple e f good bad = record {
    at = λ w n.
        read-Ends e (f w.db) w (λ a q. good a w (ap f (sym n.is) ∙ q) n)
          (λ q. bad w (ap f (sym n.is) ∙ q) n);
  }

get_vacancy_with_match-Now : (id : String) (d : Db) → Keeps (Now d) (get_vacancy_with_match id)
unfolding get_vacancy_with_match get_vacancy get_company_by_id get_vacancy_match
get_vacancy_with_match-Now id d = search keeps_rules depth 12

landed :
    (d : Db) (r : Result VacancyWithMatch) (w : World) → Ends (Now d) (λ _. Now d) (r, w) → w.db ≡ d
landed d (ok a) w n = n.is
landed d (err e) w n = n.is

module _ (id : String) (status : VacancyStatus) (d : Db) where
  undeclared :
      (o : Option Vacancy) → not (VacancyStatus.valid status) ≡ true → moved id status d o ≡ d
  undeclared none h = refl
  undeclared (some v) h = ground arith

  refused_moved :
      (v : Vacancy)
      → not (VacancyStatus.can_transition v.status status) ≡ true
      → moved id status d (some v) ≡ d
  refused_moved v h = ground arith

  allowed_moved :
      (v : Vacancy)
      → not (VacancyStatus.valid status) ≡ false
      → not (VacancyStatus.can_transition v.status status) ≡ false
      → moved id status d (some v)
        ≡ record d { vacancies = insert id (record v { status = status }) d.vacancies }
  allowed_moved v h k = ground arith

  abbrev written : Vacancy → Db
  written v = record d { vacancies = insert id (record v { status = status }) d.vacancies }

  abbrev replaced : Vacancy → Vacancy → Db → Db
  replaced v u db = record db {
    vacancies =
        insert id
          (record u {
            status = status;
            duplicate_of_vacancy_id = v.duplicate_of_vacancy_id;
            dedup_reason = v.dedup_reason;
          })
          db.vacancies;
  }

  write-Now :
      (v : Vacancy) (R : World → Type 0)
      → lookup id d.vacancies ≡ some v
      → Triple
          (Now d)
          (update_vacancy_status id status v.duplicate_of_vacancy_id v.dedup_reason)
          (λ _. Now (written v))
          R
  unfolding update_vacancy_status get_vacancy modify
  write-Now v R found =
      Triple-bind (λ u w. (w.db ≡ d) × (u ≡ v)) (get_vacancy id) _
        (read-Triple d R _ not_found (λ db. lookup id db.vacancies) (λ u w again n. (n.is, cc))
          (λ w missing n. absurd (cc)))
        λ u. record {
          at = λ w (e, p). record { is = ap (replaced v u) e ∙ ap (λ x. replaced v x d) p };
        }

  abbrev after : Db
  after = moved id status d (lookup id d.vacancies)

  stays : (w : World) → d ≡ after → Now d w → Now after w
  stays w e n = record { is = n.is ∙ e }

  rest :
      (v : Vacancy)
      → not (VacancyStatus.valid status) ≡ false
      → not (VacancyStatus.can_transition v.status status) ≡ false
      → Triple
          (λ w. Now d w × (lookup id d.vacancies ≡ some v))
          (update_vacancy_status id status v.duplicate_of_vacancy_id v.dedup_reason
            >> get_vacancy_with_match id)
          (λ _. Now after)
          (Now after)
  rest v good allowed = record {
    at = λ w (n, found).
        let e : after ≡ written v = ap (moved id status d) found ∙ allowed_moved v good allowed in
        (Triple-bind (λ _. Now (written v)) _ (λ _. get_vacancy_with_match id)
            (write-Now v (Now after) found)
            (λ _.
              subst (λ x. Triple (Now x) (get_vacancy_with_match id) (λ _. Now after) (Now after)) e
                (get_vacancy_with_match-Now id after))).at
          w n;
  }

  change-Triple : Triple (Now d) (change_vacancy_status id status) (λ _. Now after) (Now after)
  unfolding change_vacancy_status
  change-Triple =
      Triple-if (not (VacancyStatus.valid status)) _ _
        (λ bad. Triple-raise _ (λ w. stays w (sym (undeclared (lookup id d.vacancies) bad))))
        λ good.
          Triple-bind (λ v w. Now d w × (lookup id d.vacancies ≡ some v)) (get_vacancy id) _
            (read-Triple d _ _ not_found (λ db. lookup id db.vacancies) (λ v w found n. (n, found))
              (λ w missing n. stays w (sym (ap (moved id status d) missing)) n))
            λ v.
              Triple-if (not (VacancyStatus.can_transition v.status status)) _ _
                (λ refused. Triple-raise invalid_status_change λ w (n, found).
                  stays w (sym (ap (moved id status d) found ∙ refused_moved v refused)) n)
                λ allowed. rest v good allowed

-- Changing the state of a vacancy by hand changes the database exactly where the state is declared, the
-- vacancy is stored and vacancyTransitions permits the move, and then only the state of this vacancy:
-- whatever the call answers, and without the help of a transaction.
pub change_vacancy_status-moved :
    (id : String) (status : VacancyStatus) (w : World)
    → (change_vacancy_status id status w).1.db ≡ moved id status w.db (lookup id w.db.vacancies)
change_vacancy_status-moved id status w =
    let (r, w') = change_vacancy_status id status w in
    landed (after id status w.db) r w' ((change-Triple id status w.db).at w (record { is = refl }))
