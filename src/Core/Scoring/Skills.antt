-- ===== src/Core/Scoring/Skills.antt =====
-- scoreSkills of internal/core/scoring.go: the share of the profile's weighted skills that the vacancy
-- names. Go visits the map of required skills in an order of its own; here it is the order in which
-- the skills first occur.
use Prim.Native.String.{[], ◌∷◌}
use job_scout_ai.Prelude.{
  ℕ, ◌+◌, ◌*◌, ◌/◌, String, [], ◌∷◌, List, map, Option, none, some, is_empty, elem, if◌then◌else◌,
  eqb, Dict, lookup, insert,
}
use job_scout_ai.Host.{Host}
use job_scout_ai.Strings.{◌+++◌, is_nil, join}
use job_scout_ai.Core.Types.{CandidateProfile, Vacancy}
use job_scout_ai.Core.Normalize.{normalize_skill}

pub record SkillsFactor : Type 0 where
  pub score : ℕ
  pub positives : List String
  pub missing : List String
  pub negatives : List String

abbrev or_zero : Option ℕ → ℕ
or_zero none = 0
or_zero (some n) = n

-- required[s] += w
unfoldable pub add_weight : String → ℕ → Dict ℕ → Dict ℕ
unfolding lookup insert
add_weight s w required = insert s (or_zero (lookup s required) + w) required

-- The first loop and the second: every skill that is not empty once normalized adds its weight.
unfoldable pub add_weights : Host → ℕ → List String → Dict ℕ → Dict ℕ
unfolding add_weight normalize_skill
add_weights h w [] required = required
add_weights h w (skill ∷ skills) required =
    let s = normalize_skill h skill in
    add_weights h w skills (if is_nil s then required else add_weight s w required)

pub record Tally : Type 0 where
  pub total_weight : ℕ
  pub matched_weight : ℕ
  pub missing : List String
  pub positives : List String

-- The loop over the required skills, from its last round to its first: lists grow at the front.
unfoldable pub tally : List String → List String → Dict ℕ → Tally
unfolding elem
tally excluded offered [] = record {
  total_weight = 0;
  matched_weight = 0;
  missing = [];
  positives = [];
}
tally excluded offered ((skill, weight) ∷ required) =
    let rest = tally excluded offered required in
    if elem skill excluded
    then rest
    else if elem skill offered
    then record rest {
      total_weight = weight + rest.total_weight;
      matched_weight = weight + rest.matched_weight;
      positives = ("skill match: " +++ skill) ∷ rest.positives;
    }
    else record rest { total_weight = weight + rest.total_weight; missing = skill ∷ rest.missing }

-- int(math.Round(float64(matched) * 100 / float64(total))) for a positive total
unfoldable pub percentage : ℕ → ℕ → ℕ
percentage matched total = (200 * matched + total) / (2 * total)

unfoldable pub required_skills : Host → CandidateProfile → Dict ℕ
unfolding add_weights
required_skills h profile =
    add_weights h 1 profile.secondary_skills (add_weights h 2 profile.primary_skills [])

unfoldable pub score_tally : Tally → SkillsFactor
unfolding percentage join
score_tally t =
    if eqb t.total_weight 0
    then record { score = 100; positives = t.positives; missing = t.missing; negatives = [] }
    else record {
      score = percentage t.matched_weight t.total_weight;
      positives = t.positives;
      missing = t.missing;
      negatives =
          if is_empty t.missing then [] else ("missing skills: " +++ join t.missing ", ") ∷ [];
    }

unfoldable pub score_skills : Host → CandidateProfile → Vacancy → SkillsFactor
unfolding required_skills tally score_tally normalize_skill
score_skills h profile vacancy =
    let required = required_skills h profile in
    let excluded = map (normalize_skill h) profile.excluded_skills in
    let offered = map (normalize_skill h) vacancy.skills in
    if is_empty required
    then record {
      score = 100;
      positives = "profile has no skill restriction" ∷ [];
      missing = [];
      negatives = [];
    }
    else score_tally (tally excluded offered required)
