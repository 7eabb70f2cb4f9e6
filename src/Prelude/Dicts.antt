-- ===== src/Prelude/Dicts.antt =====
-- Go's `map[string]V` as an association list. The order of the entries stands for the order in which
-- `range` visits them, which Go leaves open: a theorem over every list is over every order.
use Prim.Native.String.{String}
use mathlib.Core.Path.{◌≡◌, refl, subst, ◌∙◌, ap}
use mathlib.Core.Bool.{true, false}
use mathlib.Core.Option.{Option, none, some}
use mathlib.Core.List.{List, [], ◌∷◌}
use native.Mathlib.Omega.{arith}
use text.Mathlib.Text.{◌==◌}
use text.Mathlib.TextEquality.{eq_iff}
use text.Mathlib.TextPositions.{eq_refl}
use mathlib.Core.Logic.{inl, inr}
use job_scout_ai.Prelude.Tests.{if◌then◌else◌, Bool-cases}
use job_scout_ai.Prelude.Lists.{All}

abbrev pub Dict {ℓ} : Type ℓ → Type ℓ
Dict V = List (String × V)

module _ {ℓ} {V : Type ℓ} where
  -- v, ok := d[k]
  unfoldable pub lookup : String → Dict V → Option V
  lookup k [] = none
  lookup k ((j, v) ∷ d) = if j == k then some v else lookup k d

  -- d[k] = v
  unfoldable pub insert : String → V → Dict V → Dict V
  insert k v [] = (k, v) ∷ []
  insert k v ((j, w) ∷ d) = if j == k then (j, v) ∷ d else (j, w) ∷ insert k v d

  -- The values in the order of `range`.
  unfoldable pub values : Dict V → List V
  values [] = []
  values ((j, v) ∷ d) = v ∷ values d

  pub lookup-insert :
      (k j : String) (v : V) (d : Dict V)
      → lookup j (insert k v d) ≡ (if k == j then some v else lookup j d)
  unfolding lookup insert
  lookup-insert k j v [] = refl
  lookup-insert k j v ((i, w) ∷ d) =
      ground (arith, eq_iff k j, eq_iff i k, eq_iff i j, lookup-insert k j v d)

  pub lookup-insert_same :
      (k j : String) (v : V) (d : Dict V) → k == j ≡ true → lookup j (insert k v d) ≡ some v
  lookup-insert_same k j v d h =
      lookup-insert k j v d ∙ ap (λ b. if b then some v else lookup j d) h

  pub lookup-insert_other :
      (k j : String) (v : V) (d : Dict V) → k == j ≡ false → lookup j (insert k v d) ≡ lookup j d
  lookup-insert_other k j v d h =
      lookup-insert k j v d ∙ ap (λ b. if b then some v else lookup j d) h

  pub lookup-insert_self : (k : String) (v : V) (d : Dict V) → lookup k (insert k v d) ≡ some v
  lookup-insert_self k v d = simp (lookup-insert, eq_refl)

  pub lookup-All {κ} :
      (P : V → Type κ) (k : String) (d : Dict V) (v : V)
      → lookup k d ≡ some v
      → All P (values d)
      → P v
  unfolding lookup values
  lookup-All P k [] v e h = absurd (cc)
  lookup-All P k ((j, w) ∷ d) v e h = elim (Bool-cases (j == k)) [
    | inl hit ↦ subst P (cc (rw hit at e)) h.0
    | inr miss ↦ lookup-All P k d v (rw miss at e) h.1
  ]
