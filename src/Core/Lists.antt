-- ===== src/Core/Lists.antt =====
-- dedupeAndTrim of internal/core/scoring.go, and the tests on lists of texts that the scores share.
pub mod Distinct
use Prim.Native.String.{[], ◌∷◌}
use job_scout_ai.Prelude.{String, [], ◌∷◌, Bool, ◌||◌, List, if◌then◌else◌, elem, any, map}
use job_scout_ai.Host.{Host}
use job_scout_ai.Strings.{trim_space, is_nil, contains}
use job_scout_ai.Core.Normalize.{normalize_text, normalize_skill}

-- The loop of dedupeAndTrim; `seen` holds what `out` holds, newest first.
unfoldable pub distinct_from : List String → List String → List String
unfolding trim_space elem
distinct_from seen [] = []
distinct_from seen (value ∷ values) =
    let value = trim_space value in
    let old = is_nil value || elem value seen in
    let rest = distinct_from (if old then seen else value ∷ seen) values in
    if old then rest else value ∷ rest

unfoldable pub dedupe_and_trim : List String → List String
unfolding distinct_from
dedupe_and_trim values = distinct_from [] values

module _ (h : Host) where
  -- Whether some profile entry, as a skill, is one of the vacancy's requirements.
  unfoldable pub meets_one : List String → List String → Bool
  unfolding any elem normalize_skill
  meets_one offered required =
      let required = map (normalize_skill h) required in
      any (λ item. elem (normalize_skill h item) required) offered

  -- remote := strings.Contains(…RemoteType, "remote") || strings.Contains(…Location, "remote")
  unfoldable pub is_remote : String → String → Bool
  unfolding contains normalize_text
  is_remote remote_type location =
      contains (normalize_text h remote_type) "remote"
      || contains (normalize_text h location) "remote"
