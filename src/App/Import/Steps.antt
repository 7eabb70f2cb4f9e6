-- ===== src/App/Import/Steps.antt =====
-- The steps of an import, seen by the stored vacancies.
use mathlib.Core.Path.{subst}
use job_scout_ai.Prelude.{
  ◌≡◌, refl, sym, false, some, Result, ok, err, lookup, lookup-insert_self, Dict,
}
use job_scout_ai.Strings.{is_nil}
use job_scout_ai.Core.Types.{Company, Vacancy, VacancyMatch}
use job_scout_ai.Store.{Db, World}
use job_scout_ai.Store.Exec.{Exec, pure, new_id, now, modify, ◌>>=◌, restore}
use job_scout_ai.Store.Exec.Ends.{
  Ends, Triple, Keeps, Triple-bind, Triple-weaken, Keeps-new_id, Keeps-now, Keeps-modify,
  Triple-pure, keeps_rules,
}
use job_scout_ai.Store.Memory.{
  get_or_create_company, save_company, upsert_vacancy, id_or_new, upsert_vacancy_match, time_or_now,
}
use job_scout_ai.Store.Lists.{VacancyWithMatch}

-- What is read off the vacancies alone.
pub record Of (Q : Dict Vacancy → Type 0) (w : World) : Type 0 where
  pub holds : Q w.db.vacancies

module _ {Q : Dict Vacancy → Type 0} where
  pub new_id-Of : Keeps (Of Q) new_id
  new_id-Of = Keeps-new_id (λ w h. record { holds = h.holds })

  pub now-Of : Keeps (Of Q) now
  now-Of = Keeps-now (λ w h. record { holds = h.holds })

  pub modify-Of :
      (f : Db → Db) → ((db : Db) → (f db).vacancies ≡ db.vacancies) → Keeps (Of Q) (modify f)
  modify-Of f e = Keeps-modify f λ w h. record { holds = subst Q (sym (e w.db)) h.holds }

  pub upsert_match-Of : (match : VacancyMatch) → Keeps (Of Q) (upsert_vacancy_match match)
  unfolding upsert_vacancy_match id_or_new time_or_now
  upsert_match-Of match = search (keeps_rules, new_id-Of, now-Of, modify-Of) depth 12

  pub get_or_create_company-Of : (company : Company) → Keeps (Of Q) (get_or_create_company company)
  unfolding get_or_create_company save_company
  get_or_create_company-Of company = search (keeps_rules, modify-Of) depth 12

-- A vacancy that is written under its own identifier.
abbrev pub Written : Vacancy → Vacancy → Dict Vacancy → Type 0
Written x y vacancies = (y ≡ x) × (lookup x.id vacancies ≡ some y)

pub upsert_vacancy-Written :
    (x : Vacancy)
    → is_nil x.id ≡ false
    → Triple (λ w. Unit {0}) (upsert_vacancy x) (λ y. Of (Written x y)) (λ w. Unit {0})
unfolding upsert_vacancy id_or_new
upsert_vacancy-Written x named = record {
  at = λ w h. rw named (record { holds = (refl, lookup-insert_self x.id x w.db.vacancies) });
}

-- The end of an import writes the match alone.
pub matched :
    (Q : Dict Vacancy → Type 0) (post : VacancyWithMatch → World → Type 0) (y : Vacancy)
    (company : Company) (match : VacancyMatch)
    → ((match : VacancyMatch) (w : World)
        → Q w.db.vacancies
        → post (record { vacancy = y; company = some company; match = some match }) w)
    → Triple
        (Of Q)
        (do
          match ← upsert_vacancy_match match
          pure (record { vacancy = y; company = some company; match = some match }))
        post
        (λ w. Unit {0})
matched Q post y company match up =
    Triple-bind (λ m. Of Q) (upsert_vacancy_match match) _
      (Triple-weaken _ (upsert_match-Of match) (λ w h. h) (λ m w h. h) (λ w h. tt))
      λ m. Triple-pure _ λ w h. up m w h.holds

-- A step that leaves the vacancies alone.
pub after :
    {A B : Type 0} (Q : Dict Vacancy → Type 0) (post : B → World → Type 0) (m : Exec A)
    (f : A → Exec B)
    → Keeps (Of Q) m
    → ((a : A) → Triple (Of Q) (f a) post (λ w. Unit {0}))
    → Triple (Of Q) (m >>= f) post (λ w. Unit {0})
after Q post m f k rest =
    Triple-bind (λ a. Of Q) m f (Triple-weaken m k (λ w h. h) (λ a w h. h) (λ w h. tt)) rest

-- A transaction promises what its body does where it succeeds.
pub committed :
    {B : Type 0} (post : B → World → Type 0) (w : World) (r : Result B × World)
    → Ends (λ w. Unit {0}) post r
    → Ends (λ w. Unit {0}) post (restore w r)
committed post w (ok i, u) h = h
committed post w (err x, u) h = tt
