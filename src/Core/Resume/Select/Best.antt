-- ===== src/Core/Resume/Select/Best.antt =====
-- Which resume DeterministicResumeSelector chooses.
use mathlib.Core.Path.{subst}
use job_scout_ai.Prelude.{
  ℕ, ◌≤◌, String, ◌≡◌, refl, true, false, ◌⊎◌, List, [], ◌∷◌, Option, none, some, All, find,
  find-passes, In, here, find-In, keep-In, In-keep, All-In, In-All, ok, Bool-cases, sym, ◌∙◌, ◌↔◌,
  arith, inl, inr, is_empty, eq_iff, ◌==◌,
}
use job_scout_ai.Host.{Host}
use job_scout_ai.Strings.{trim_space, is_nil}
use job_scout_ai.Core.Normalize.{normalize_string_list}
use job_scout_ai.Core.Resume.{Resume, ResumeTargetRole, general_backend, role_text}
use job_scout_ai.Core.Resume.Select.Order.{First, sort_stable-First, All-sort_stable}
use job_scout_ai.Core.Resume.Select.{
  ResumeSelectionInput, ScoredResume, same_role, filter_resumes_by_role, sort_stable,
  infer_resume_target_role, candidates_for, scored_candidates, overlap_count, first_choice,
  manual_choice, select,
}

-- An active resume of the list for the role.
pub record Offered (resumes : List Resume) (role : ResumeTargetRole) (r : Resume) : Type 0 where
  pub listed : In r resumes
  pub active : r.is_active ≡ true
  pub suits : same_role r.target_role role ≡ true

-- The resumes that may be chosen for the role: those for it, and where there is none, those for the general role.
abbrev pub Eligible : List Resume → ResumeTargetRole → Resume → Type 0
Eligible resumes role r =
    Offered resumes role r
    ⊎ (Offered resumes general_backend r × ((c : Resume) → ¬ Offered resumes role c))

filtered :
    (resumes : List Resume) (role : ResumeTargetRole) (r : Resume)
    → In r (filter_resumes_by_role resumes role true)
    → Offered resumes role r
unfolding filter_resumes_by_role
filtered resumes role r i =
    let (j, e) = keep-In _ resumes r i in
    record { listed = j; active = ground arith; suits = ground arith }

offered :
    (resumes : List Resume) (role : ResumeTargetRole) (r : Resume)
    → Offered resumes role r
    → In r (filter_resumes_by_role resumes role true)
unfolding filter_resumes_by_role
offered resumes role r o = In-keep _ resumes r o.listed (rw (o.active, o.suits) refl)

no_entry : {A : Type 0} (xs : List A) (a : A) → is_empty xs ≡ true → ¬ In a xs
no_entry [] a e i = elim i [ ]
no_entry (x ∷ xs) a e i = absurd (cc)

some_entry : {A : Type 0} (xs : List A) → is_empty xs ≡ false → (a : A) × In a xs
some_entry [] e = absurd (cc)
some_entry (x ∷ xs) e = (x, here)

same_roles :
    (a b c : ResumeTargetRole) → same_role a c ≡ true → same_role b c ≡ true → same_role a b ≡ true
unfolding same_role
same_roles a b c e f =
    (eq_iff _ _).1
      ((eq_iff (role_text a) (role_text c)).0 e ∙ sym ((eq_iff (role_text b) (role_text c)).0 f))

-- The candidates are the eligible resumes.
Chosen : List Resume → ResumeTargetRole → List Resume → Type 0
Chosen resumes role cs = (r : Resume) → In r cs ↔ Eligible resumes role r

module _ (h : Host) (resumes : List Resume) (role : ResumeTargetRole) where
  own-Chosen :
      ((r : Resume)
        → Offered resumes general_backend r
        → ((c : Resume) → ¬ Offered resumes role c)
        → In r (filter_resumes_by_role resumes role true))
      → Chosen resumes role (filter_resumes_by_role resumes role true)
  unfolding Chosen
  own-Chosen general r = (
    λ i. inl (filtered resumes role r i),
    λ e. elim e [ inl o ↦ offered resumes role r o | inr g ↦ general r g.0 g.1 ],
  )

  general-Chosen :
      is_empty (filter_resumes_by_role resumes role true) ≡ true
      → Chosen resumes role (filter_resumes_by_role resumes general_backend true)
  unfolding Chosen
  general-Chosen e r = (
    λ i.
        inr
          (filtered resumes general_backend r i, λ c o. no_entry _ c e (offered resumes role c o)),
    λ k. elim k [
      | inl o ↦ absurd (no_entry _ r e (offered resumes role r o))
      | inr g ↦ offered resumes general_backend r g.0
    ],
  )

  candidates_for-Chosen : Chosen resumes role (candidates_for h resumes role)
  unfolding candidates_for
  candidates_for-Chosen = elim (Bool-cases (is_empty (filter_resumes_by_role resumes role true))) [
    | inl e ↦ elim (Bool-cases (same_role role general_backend)) [
      | inl g ↦
          rw (e, g)
            (own-Chosen λ r o no. absurd (
              no r (record {
                listed = o.listed;
                active = o.active;
                suits = same_roles r.target_role role general_backend o.suits g;
              })))
      | inr g ↦ rw (e, g) (general-Chosen e)
    ]
    | inr e ↦ rw e (
        own-Chosen
          λ r o no. let (c, i) = some_entry _ e in absurd (no c (filtered resumes role c i)))
  ]

  module _ (skills : List String) where
    -- What a scored candidate is.
    Scored : ScoredResume → Type 0
    Scored s = Eligible resumes role s.resume × (s.score ≡ overlap_count h s.resume.skills skills)

    Scored-Scored :
        (rs : List Resume)
        → All (Eligible resumes role) rs
        → All Scored (scored_candidates h skills rs)
    unfolding scored_candidates Scored
    Scored-Scored [] k = tt
    Scored-Scored (r ∷ rs) k = ((k.0, refl), Scored-Scored rs k.1)

    unscored :
        (n : ℕ) (rs : List Resume)
        → All (λ s. s.score ≤ n) (scored_candidates h skills rs)
        → All (λ r. overlap_count h r.skills skills ≤ n) rs
    unfolding scored_candidates
    unscored n [] k = tt
    unscored n (r ∷ rs) k = (k.0, unscored n rs k.1)

    first_choice-Top :
        (sorted : List ScoredResume) (r : Resume)
        → First sorted
        → All Scored sorted
        → first_choice h role sorted ≡ ok r
        → Eligible resumes role r × All (λ s. s.score ≤ overlap_count h r.skills skills) sorted
    unfolding Scored
    first_choice-Top [] r f k e = absurd (cc)
    first_choice-Top (best ∷ rest) r f k e =
        let same : best.resume ≡ r = cc in
        subst
          (λ z.
            Eligible resumes role z
            × All (λ s. s.score ≤ overlap_count h z.skills skills) (best ∷ rest))
          same (k.0.0, subst (λ n. All (λ s. s.score ≤ n) (best ∷ rest)) k.0.1 f)

    In-Eligible : (r : Resume) → In r (candidates_for h resumes role) → Eligible resumes role r
    unfolding Chosen
    In-Eligible r = (candidates_for-Chosen r).0

    Eligible-In : (r : Resume) → Eligible resumes role r → In r (candidates_for h resumes role)
    unfolding Chosen
    Eligible-In r = (candidates_for-Chosen r).1

    chosen :
        (r : Resume)
        → first_choice h role
            (sort_stable (scored_candidates h skills (candidates_for h resumes role)))
          ≡ ok r
        → Eligible resumes role r
          × ((c : Resume)
              → Eligible resumes role c
              → overlap_count h c.skills skills ≤ overlap_count h r.skills skills)
    chosen r e =
        let scored = scored_candidates h skills (candidates_for h resumes role) in
        let (eligible, top) =
          first_choice-Top (sort_stable scored) r (sort_stable-First scored)
            ((All-sort_stable Scored scored).0 (
              Scored-Scored (candidates_for h resumes role)
                (All-In (Eligible resumes role) (candidates_for h resumes role) In-Eligible)))
            e in
        (
          eligible,
          λ c k.
              In-All (λ z. overlap_count h z.skills skills ≤ overlap_count h r.skills skills)
                (candidates_for h resumes role) (unscored _ _ ((All-sort_stable _ scored).1 top)) c
                (Eligible-In c k),
        )

-- Without a manual choice, the resume that Select returns is an active one of the list for the role that the
-- vacancy asks for, or, where the list has no active one for it, an active one for the general role; and no
-- other resume of which this holds shares more skills with the vacancy.
pub select-Eligible :
    (h : Host) (input : ResumeSelectionInput) (r : Resume)
    → is_nil (trim_space input.manual_resume_id) ≡ true
    → select h input ≡ ok r
    → let role = infer_resume_target_role h input.vacancy input.match in
      let skills = normalize_string_list h input.vacancy.skills in
      Eligible input.resumes role r
      × ((c : Resume)
          → Eligible input.resumes role c
          → overlap_count h c.skills skills ≤ overlap_count h r.skills skills)
unfolding select
select-Eligible h input r none_ e =
    chosen h input.resumes (infer_resume_target_role h input.vacancy input.match)
      (normalize_string_list h input.vacancy.skills) r (rw none_ at e)

manual_choice-ok :
    (h : Host) (manual : String) (o : Option Resume) (r : Resume)
    → manual_choice h manual o ≡ ok r
    → o ≡ some r
manual_choice-ok h manual none r e = absurd (cc)
manual_choice-ok h manual (some x) r e = cc

-- With a manual choice, Select returns the resume of the list that has the identifier, spaces around it
-- left aside, active or not, and of any role.
pub select-manual :
    (h : Host) (input : ResumeSelectionInput) (r : Resume)
    → is_nil (trim_space input.manual_resume_id) ≡ false
    → select h input ≡ ok r
    → In r input.resumes × (r.id ≡ trim_space input.manual_resume_id)
unfolding select
select-manual h input r given e =
    let manual = trim_space input.manual_resume_id in
    let found : find (λ x. x.id == manual) input.resumes ≡ some r =
      manual_choice-ok h manual _ r (rw given at e) in
    (find-In _ input.resumes r found, (eq_iff _ _).0 (find-passes _ input.resumes r found))
