-- ===== src/Core/Spelling.antt =====
-- How a Go string type with declared constants is read: a declared spelling is that constant, and any
-- other text is kept as it is.
use job_scout_ai.Prelude.{
  String, ◌≡◌, List, Option, none, some, find, ◌==◌, eq_iff, Option-cases, inl, inr, find-passes,
}

module _ {T : Type 0} (to_text : T → String) (other : String → T) (declared : List T) where
  abbrev or_other : String → Option T → T
  or_other s none = other s
  or_other s (some t) = t

  unfoldable pub read : String → T
  unfolding find
  read s = or_other s (find (λ t. to_text t == s) declared)

  -- Reading a text and writing it again gives the text back.
  pub to_text-read : (s : String) → to_text (other s) ≡ s → to_text (read s) ≡ s
  unfolding read
  to_text-read s plain = elim (Option-cases (find (λ t. to_text t == s) declared)) [
    | inl e ↦ rw (e, read) plain
    | inr (t, e) ↦ rw (e, read) ((eq_iff _ _).0 (find-passes (λ t. to_text t == s) declared t e))
  ]
