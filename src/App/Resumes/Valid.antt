-- ===== src/App/Resumes/Valid.antt =====
-- internal/app/resumes.go: what is stored of resumes.
use job_scout_ai.Prelude.{
  String, ◌≡◌, refl, sym, ◌∙◌, ap, List, some, Result, ok, err, lookup, insert, lookup-insert_same,
  lookup-insert_other, Dict, Bool-cases, inl, inr, ◌==◌,
}
use job_scout_ai.Host.{Host}
use job_scout_ai.Strings.{trim_space}
use job_scout_ai.Strings.Trim.{trim_space-trim_space}
use job_scout_ai.Core.Types.{Time}
use job_scout_ai.Core.Resume.{Resume, validate}
use job_scout_ai.Store.{World}
use job_scout_ai.Store.Exec.{Exec, new_id, now, modify, lift, ◌>>=◌}
use job_scout_ai.Store.Exec.Ends.{
  Ends, Keeps, Triple-bind, Triple-lift, Keeps-modify, Keeps-new_id, Keeps-now, keeps_rules,
}
use job_scout_ai.Store.Memory.{id_or_new, upsert_resume}
use job_scout_ai.App.{App, get_profile}
use job_scout_ai.App.Resumes.{ResumeCreateRequest, ResumePatchRequest, create_resume, update_resume}

-- Every stored resume passes Validate.
pub record AllValid (w : World) : Type 0 where
  pub valid : (i : String) (r : Resume) → lookup i w.db.resumes ≡ some r → validate r ≡ ok tt

new_id-Valid : Keeps AllValid new_id
new_id-Valid = Keeps-new_id (λ w l. record { valid = l.valid })

now-Valid : Keeps AllValid now
now-Valid = Keeps-now (λ w l. record { valid = l.valid })

-- The store trims what Validate looks at.
abbrev stored_as : Resume → String → List String → Time → Time → Resume
stored_as r id skills created updated = record r {
  id = id;
  name = trim_space r.name;
  text_content = trim_space r.text_content;
  skills = skills;
  created_at = created;
  updated_at = updated;
}

validate-stored_as :
    (r : Resume) (id : String) (skills : List String) (created updated : Time)
    → validate (stored_as r id skills created updated) ≡ validate r
unfolding validate
validate-stored_as r id skills created updated =
    rw (trim_space-trim_space r.name, trim_space-trim_space r.text_content) refl

insert-Valid :
    (resumes : Dict Resume) (k : String) (r : Resume)
    → ((i : String) (x : Resume) → lookup i resumes ≡ some x → validate x ≡ ok tt)
    → validate r ≡ ok tt
    → (i : String) (x : Resume) → lookup i (insert k r resumes) ≡ some x
    → validate x ≡ ok tt
insert-Valid resumes k r all h i x found = elim (Bool-cases (k == i)) [
  | inl y ↦
      let hit : some r ≡ some x = sym (lookup-insert_same k i r resumes y) ∙ found in
      let p : r ≡ x = cc in ap validate (sym p) ∙ h
  | inr n ↦ all i x (sym (lookup-insert_other k i r resumes n) ∙ found)
]

id_or_new-Valid : (id : String) → Keeps AllValid (id_or_new id)
unfolding id_or_new
id_or_new-Valid id = search (keeps_rules, new_id-Valid)

get_profile-Valid : Keeps AllValid get_profile
unfolding get_profile
get_profile-Valid = search keeps_rules depth 12

put-Valid :
    (r : Resume)
    → validate r ≡ ok tt
    → (id : String) (skills : List String) (created updated : Time)
    → Keeps AllValid (
        modify λ db. record db {
          resumes = insert id (stored_as r id skills created updated) db.resumes;
        })
put-Valid r h id skills created updated = Keeps-modify _ λ w l. record {
  valid =
      insert-Valid w.db.resumes id (stored_as r id skills created updated) l.valid
        (validate-stored_as r id skills created updated ∙ h);
}

upsert_resume-Valid :
    (h : Host) (r : Resume) → validate r ≡ ok tt → Keeps AllValid (upsert_resume h r)
unfolding upsert_resume
upsert_resume-Valid h r valid =
    search (keeps_rules, id_or_new-Valid, now-Valid, put-Valid r valid) depth 10

-- Nothing is stored before Validate has accepted it.
checked :
    {A : Type 0} (r : Resume) (m : Exec A)
    → (validate r ≡ ok tt → Keeps AllValid m)
    → Keeps AllValid (lift (validate r) >>= λ _. m)
checked r m k =
    Triple-bind (λ _ w. AllValid w × (validate r ≡ ok tt)) (lift (validate r)) (λ _. m)
      (Triple-lift (validate r) (λ a e w l. (l, e)) (λ w l. l))
      λ _. record { at = λ w (l, e). (k e).at w l }

module _ (app : App) where
  create_resume-Valid : (req : ResumeCreateRequest) → Keeps AllValid (create_resume app req)
  unfolding create_resume
  create_resume-Valid req =
      search (keeps_rules, get_profile-Valid, checked, upsert_resume-Valid) depth 14

  update_resume-Valid :
      (id : String) (req : ResumePatchRequest) → Keeps AllValid (update_resume app id req)
  unfolding update_resume
  update_resume-Valid id req = search (keeps_rules, checked, upsert_resume-Valid) depth 14

either_way :
    {A : Type 0} (r : Result A) (w : World) → Ends AllValid (λ _. AllValid) (r, w) → AllValid w
either_way (ok a) w l = l
either_way (err e) w l = l

-- Creating and changing resumes, with any requests and whether the calls succeed or fail, leave stored only
-- resumes that Validate accepts, provided all that are stored before are such: no stored resume has a
-- blank name or text, no owner, or a role or language that is not declared.
pub resumes-Valid :
    (app : App) (w : World)
    → AllValid w
    → (req : ResumeCreateRequest) (id : String) (patch : ResumePatchRequest)
    → AllValid (create_resume app req w).1 × AllValid (update_resume app id patch w).1
resumes-Valid app w l req id patch =
    let (r, w') = create_resume app req w in
    let (s, w'') = update_resume app id patch w in
    (
      either_way r w' ((create_resume-Valid app req).at w l),
      either_way s w'' ((update_resume-Valid app id patch).at w l),
    )
