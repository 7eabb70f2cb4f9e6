-- ===== src/Core/Lists/Distinct.antt =====
-- What dedupeAndTrim keeps.
use job_scout_ai.Prelude.{
  String, ◌≡◌, refl, ap, ◌↔◌, true, false, ◌||◌, List, [], ◌∷◌, map, elem, arith, eq_iff, eq_refl,
  ◌==◌, Bool-cases, inl, inr,
}
use job_scout_ai.Strings.{is_nil, trim_space}
use job_scout_ai.Core.Lists.{distinct_from, dedupe_and_trim}

-- No text stands twice.
abbrev pub Distinct : List String → Type 0
Distinct [] = Unit
Distinct (s ∷ r) = (elem s r ≡ false) × Distinct r

same_text :
    (v s : String) (seen : List String)
    → v == s ≡ true
    → (is_nil v ≡ is_nil s) × (elem v seen ≡ elem s seen)
same_text v s seen e = let p = (eq_iff v s).0 e in (ap (λ t. is_nil t) p, ap (λ t. elem t seen) p)

-- A text is in the result where it is not blank, is an entry once it is trimmed, and is not seen yet.
elem-distinct_from :
    (s : String) (seen values : List String)
    → (elem s (distinct_from seen values) ≡ true)
      ↔ ((is_nil s ≡ false) × (elem s (map trim_space values) ≡ true) × (elem s seen ≡ false))
unfolding distinct_from elem
elem-distinct_from s seen [] = (λ e. absurd (cc), λ h. absurd (cc (h.1)))
elem-distinct_from s seen (value ∷ values) =
    let v = trim_space value in
    elim (Bool-cases (is_nil v || elem v seen)) [
      | inl old ↦
          let (to, from) = elem-distinct_from s seen values in
          let same = same_text v s seen in
          rw old (λ e. ground (arith, to, from, same), λ e. ground (arith, to, from, same))
      | inr new ↦
          let (to, from) = elem-distinct_from s (v ∷ seen) values in
          let same = same_text v s seen in
          rw new (λ e. ground (arith, to, from, same), λ e. ground (arith, to, from, same))
    ]

absent : (v : String) (seen values : List String) → elem v (distinct_from (v ∷ seen) values) ≡ false
unfolding elem
absent v seen values =
    let (to, from) = elem-distinct_from v (v ∷ seen) values in ground (arith, to, eq_refl v)

distinct_from-Distinct : (seen values : List String) → Distinct (distinct_from seen values)
unfolding distinct_from
distinct_from-Distinct seen [] = tt
distinct_from-Distinct seen (value ∷ values) =
    let v = trim_space value in
    elim (Bool-cases (is_nil v || elem v seen)) [
      | inl old ↦ rw old (distinct_from-Distinct seen values)
      | inr new ↦ rw new (absent v seen values, distinct_from-Distinct (v ∷ seen) values)
    ]

-- dedupeAndTrim leaves no text twice, and a text is in its result exactly where it is not blank and is an
-- entry of the list, spaces around it left aside.
pub dedupe_and_trim-Distinct :
    (values : List String)
    → Distinct (dedupe_and_trim values)
      × ((s : String)
          → (elem s (dedupe_and_trim values) ≡ true)
            ↔ ((is_nil s ≡ false) × (elem s (map trim_space values) ≡ true)))
unfolding dedupe_and_trim elem
dedupe_and_trim-Distinct values = (
  distinct_from-Distinct [] values,
  λ s.
      let (to, from) = elem-distinct_from s [] values in
      (λ e. ((to e).0, (to e).1), λ h. from (h.0, h.1, refl)),
)
