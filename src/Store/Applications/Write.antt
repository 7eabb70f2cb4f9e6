-- ===== src/Store/Applications/Write.antt =====
-- A write through UpsertApplication keeps the applications sound.
use job_scout_ai.Prelude.{
  String, ◌≡◌, sym, ◌∙◌, ◌≢◌, ◌⊎◌, inl, inr, true, false, ◌&&◌, some, lookup, insert, values,
  lookup-insert, lookup-All, any, any-none, Dict, arith, eq_iff, ◌==◌, Bool-cases,
}
use mathlib.Core.Path.{subst}
use job_scout_ai.Strings.{is_nil}
use job_scout_ai.Core.Types.{Application}
use job_scout_ai.Core.ApplicationStatus
use job_scout_ai.Store.Memory.{is_active, is_active_for, conflicts_with}
use job_scout_ai.Store.Applications.{Sound, Follows, Leads, Leads-trans}

module _ (apps : Dict Application) (a : Application) where
  abbrev next : Dict Application
  next = insert a.id a apps

  -- What a read after the write gives: the entry that was written, or the old one under another key.
  lookup-next :
      (i : String) (b : Application)
      → lookup i next ≡ some b
      → ((i ≡ a.id) × (b ≡ a)) ⊎ ((a.id ≢ i) × (lookup i apps ≡ some b))
  lookup-next i b e = ground (arith, lookup-insert a.id i a apps, eq_iff a.id i)

  lookup_conflict :
      (j : String) (b : Application)
      → Sound apps
      → (is_active a && any (conflicts_with a) (values apps)) ≡ false
      → is_active a ≡ true
      → lookup j apps ≡ some b
      → is_active b ≡ true
      → a.vacancy_id ≡ b.vacancy_id
      → a.candidate_profile_id ≡ b.candidate_profile_id
      → a.id ≡ j
  unfolding conflicts_with is_active_for
  lookup_conflict j b s free active e eb ev ep = ground (
    arith,
    lookup-All (λ x. conflicts_with a x ≡ false) j apps b e
        (any-none (conflicts_with a) (values apps) (ground arith)),
    s.keyed j b e,
    eq_iff b.id a.id,
    eq_iff b.vacancy_id a.vacancy_id,
    eq_iff b.candidate_profile_id a.candidate_profile_id,
  )

  -- A write that the search for conflicts lets through.
  pub insert-Sound :
      Sound apps
      → is_nil a.id ≡ false
      → ApplicationStatus.valid a.status ≡ true
      → (is_active a && any (conflicts_with a) (values apps)) ≡ false
      → Sound next
  insert-Sound s named valid free = record {
    keyed = λ i b e. ground (arith, lookup-next i b e, s.keyed i b);
    named = λ i b e. ground (arith, lookup-next i b e, s.named i b);
    declared = λ i b e. ground (arith, lookup-next i b e, s.declared i b);
    unique = λ i j b c eb ec ab ac v p. ground (
      arith,
      lookup-next i b eb,
      lookup-next j c ec,
      s.unique i j b c,
      lookup_conflict j c s free,
      lookup_conflict i b s free,
    );
  }

  -- The states follow if the entry under the same key may move to the new state.
  pub insert-Follows :
      (before : Dict Application)
      → Follows before apps
      → ((c : Application) → lookup a.id apps ≡ some c → Leads c.status a.status)
      → Follows before next
  insert-Follows before f leads i b e =
      let (c, ec, l) = f i b e in
      elim (Bool-cases (a.id == i)) [
        | inl hit ↦ (
          a,
          lookup-insert a.id i a apps ∙ ground arith,
          Leads-trans l
              (leads c (subst (λ k. lookup k apps ≡ some c) (sym ((eq_iff _ _).0 hit)) ec)),
        )
        | inr miss ↦ (c, lookup-insert a.id i a apps ∙ ground arith, l)
      ]
