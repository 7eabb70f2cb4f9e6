-- ===== src/Strings/Affixes.antt =====
-- strings.TrimPrefix, HasSuffix, TrimSuffix and Cut for texts of any length.
use Prim.Native.String.{[], ◌∷◌}
use Prim.Native.Char.{Char, code}
use mathlib.Core.Option
use job_scout_ai.Prelude.{String, Bool, Option, none, some, is_some, eqb, if◌then◌else◌, ◌==◌}

abbrev pub or_whole : String → Option String → String
or_whole s none = s
or_whole s (some t) = t

-- What is behind the prefix `t`, if `s` begins with it.
unfoldable pub strip_prefix : String → String → Option String
strip_prefix [] s = some s
strip_prefix (c ∷ t) [] = none
strip_prefix (c ∷ t) (d ∷ s) =
    let rest = strip_prefix t s in if eqb (code c) (code d) then rest else none

unfoldable pub trim_prefix : String → String → String
unfolding strip_prefix
trim_prefix s t = or_whole s (strip_prefix t s)

abbrev pub put_first : Char → Option String → Option String
put_first c none = none
put_first c (some s) = some (c ∷ s)

-- What is before the suffix `t`, if `s` ends with it.
unfoldable pub strip_suffix : String → String → Option String
strip_suffix t [] = if t == "" then some "" else none
strip_suffix t (c ∷ s) =
    let rest = strip_suffix t s in if t == (c ∷ s) then some "" else put_first c rest

unfoldable pub has_suffix : String → String → Bool
unfolding strip_suffix
has_suffix s t = is_some (strip_suffix t s)

unfoldable pub without_suffix : String → String → String
unfolding strip_suffix
without_suffix s t = or_whole s (strip_suffix t s)

-- The text before the first `sep`; the whole text where there is none.
unfoldable pub before : Char → String → String
before sep [] = []
before sep (c ∷ s) = let rest = before sep s in if eqb (code c) (code sep) then [] else c ∷ rest

-- strings.Cut at a separator of one character.
unfoldable pub cut : Char → String → Option (String × String)
cut sep [] = none
cut sep (c ∷ s) =
    let rest = Option.map (λ p. (c ∷ p.0, p.1)) (cut sep s) in
    if eqb (code c) (code sep) then some ([], s) else rest
