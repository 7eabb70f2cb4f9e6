-- ===== src/Strings/Trim.antt =====
-- strings.TrimSpace a second time.
use job_scout_ai.Prelude.{String, Bool, ◌≡◌, refl, ◌∙◌, ap, [], ◌∷◌, arith}
use Prim.Native.Char.{Char}
use Prim.Native.String.{[], ◌∷◌}
use job_scout_ai.Strings.{is_space, trim_left, trim_right, trim_space}

module _ (p : Char → Bool) where
  trim_right-trim_right : (s : String) → trim_right p (trim_right p s) ≡ trim_right p s
  unfolding trim_right
  trim_right-trim_right [] = refl
  trim_right-trim_right (c ∷ s) = ground (arith, trim_right-trim_right s)

  trim_left-trim_right :
      (s : String) → trim_left p (trim_right p (trim_left p s)) ≡ trim_right p (trim_left p s)
  unfolding trim_left trim_right
  trim_left-trim_right [] = refl
  trim_left-trim_right (c ∷ s) = ground (arith, trim_left-trim_right s)

pub trim_space-trim_space : (s : String) → trim_space (trim_space s) ≡ trim_space s
unfolding trim_space
trim_space-trim_space s =
    ap (trim_right is_space) (trim_left-trim_right is_space s)
    ∙ trim_right-trim_right is_space (trim_left is_space s)
