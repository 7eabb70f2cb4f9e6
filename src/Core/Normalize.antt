-- ===== src/Core/Normalize.antt =====
-- internal/core/normalize.go: one spelling for each title, skill and list, and the content hash.
use Prim.Native.Char.{Char, code}
use Prim.Native.String.{[], ◌∷◌, compare}
use Prim.Native.Nat.{Ordering}
use job_scout_ai.Prelude.{
  ℕ, String, [], ◌∷◌, Bool, true, false, not, ◌&&◌, ◌||◌, List, Option, none, some, eqb,
  if◌then◌else◌, elem, lookup, ℤ,
}
use job_scout_ai.Host.{Host, Url}
use job_scout_ai.Strings.{trim_space, map_chars, fields, join, trim_suffix, is_nil}
use job_scout_ai.Core.SourceType.{SourceType}
use job_scout_ai.Core.Decimal.{itoa}
use job_scout_ai.Core.Types.{RawVacancy, NormalizedVacancy}

abbrev skill_aliases : List (String × String)
skill_aliases =
    ("golang", "go")
    ∷ ("go lang", "go")
    ∷ ("js", "javascript")
    ∷ ("ts", "typescript")
    ∷ ("node", "nodejs")
    ∷ ("node.js", "nodejs")
    ∷ ("postgres", "postgresql")
    ∷ ("postgresql", "postgresql")
    ∷ ("py", "python")
    ∷ ("k8s", "kubernetes")
    ∷ ("docker compose", "docker-compose")
    ∷ []

unfoldable pub has_char : ℕ → String → Bool
has_char n [] = false
has_char n (c ∷ s) = eqb (code c) n || has_char n s

abbrev next_inside : Bool → Char → String → Bool
next_inside true c s = not (eqb (code c) b'>')
next_inside false c s = eqb (code c) b'<' && has_char b'>' s

-- htmlTagRe.ReplaceAllString(s, " ") for the pattern (?s)<[^>]*>: a "<" with a ">" behind it opens a
-- tag, which the first ">" closes. `inside` says that a tag is open.
unfoldable pub replace_tags : Bool → String → String
unfolding has_char
replace_tags inside [] = []
replace_tags inside (c ∷ s) =
    let inside' = next_inside inside c s in
    let rest = replace_tags inside' s in
    if inside then rest else if inside' then " " ∷ rest else c ∷ rest

abbrev is_kept_mark : Char → Bool
is_kept_mark c =
    let n = code c in
    eqb n b'+' || eqb n b'#' || eqb n b'.' || eqb n b'/' || eqb n b'-' || eqb n b'_'

-- sort.Strings, in the order of the bytes.
unfoldable pub insert_sorted : String → List String → List String
insert_sorted s [] = s ∷ []
insert_sorted s (t ∷ r) = elim (compare s t) [ Ordering.gt ↦ t ∷ insert_sorted s r | _ ↦ s ∷ t ∷ r ]

unfoldable pub sort_strings : List String → List String
unfolding insert_sorted
sort_strings [] = []
sort_strings (s ∷ r) = insert_sorted s (sort_strings r)

module _ (h : Host) where
  unfoldable pub keep_rune : Char → Char
  keep_rune c = if h.is_letter c || h.is_digit c || is_kept_mark c then c else " "

  unfoldable pub normalize_text : String → String
  unfolding replace_tags map_chars keep_rune fields join
  normalize_text value =
      let value = h.unescape_string value in
      let value = replace_tags false value in
      let value = map_chars h.to_lower value in
      let value = map_chars keep_rune value in join (fields value) " "

  abbrev or_value : String → Option String → String
  or_value value none = value
  or_value value (some alias) = alias

  unfoldable pub normalize_skill : String → String
  unfolding normalize_text lookup
  normalize_skill value =
      let value = normalize_text value in or_value value (lookup value skill_aliases)

  -- The loop of NormalizeStringList; `seen` holds what `out` holds, newest first.
  unfoldable pub distinct_skills : List String → List String → List String
  unfolding normalize_skill elem
  distinct_skills seen [] = []
  distinct_skills seen (value ∷ values) =
      let value = normalize_skill value in
      let old = is_nil value || elem value seen in
      let rest = distinct_skills (if old then seen else value ∷ seen) values in
      if old then rest else value ∷ rest

  unfoldable pub normalize_string_list : List String → List String
  unfolding distinct_skills sort_strings insert_sorted
  normalize_string_list values = sort_strings (distinct_skills [] values)

  unfoldable pub normalize_location : String → String
  unfolding normalize_text
  normalize_location value = normalize_text value

  abbrev canonical_of : String → Option Url → String
  canonical_of raw none = trim_suffix raw "/"
  canonical_of raw (some parsed) = h.url_string (record parsed {
    fragment = "";
    raw_query = "";
    scheme = map_chars h.to_lower parsed.scheme;
    host = map_chars h.to_lower parsed.host;
    path = trim_suffix parsed.path "/";
  })

  unfoldable pub canonical_url : String → String
  unfolding trim_space map_chars trim_suffix
  canonical_url raw =
      let raw = trim_space raw in if is_nil raw then "" else canonical_of raw (h.parse_url raw)

  unfoldable pub strip_html : String → String
  unfolding replace_tags fields join trim_space
  strip_html value =
      let value = h.unescape_string value in
      let value = replace_tags false value in
      let value = join (fields value) " " in trim_space value

  abbrev salary_text : Option ℤ → String
  salary_text none = ""
  salary_text (some n) = itoa n

  unfoldable pub hash_vacancy : RawVacancy → String
  unfolding normalize_text normalize_string_list join itoa
  hash_vacancy raw = h.sha256_hex (
      normalize_text raw.title
      ∷ normalize_text raw.company_name
      ∷ normalize_text raw.location
      ∷ normalize_text raw.canonical_url
      ∷ normalize_text raw.remote_type
      ∷ normalize_text raw.employment_type
      ∷ normalize_text raw.grade
      ∷ salary_text raw.salary_from
      ∷ salary_text raw.salary_to
      ∷ normalize_text raw.currency
      ∷ normalize_text raw.description
      ∷ normalize_text raw.requirements
      ∷ normalize_text raw.responsibilities
      ∷ join (normalize_string_list raw.skills) ","
      ∷ join (normalize_string_list raw.language_requirements) ","
      ∷ join (normalize_string_list raw.work_authorization_requirements) ","
      ∷ [])

  unfoldable pub normalize_vacancy : RawVacancy → NormalizedVacancy
  unfolding strip_html hash_vacancy normalize_text
  normalize_vacancy raw =
      let description = strip_html raw.description in
      let requirements = strip_html raw.requirements in
      let responsibilities = strip_html raw.responsibilities in
      let hash_input = record raw {
        source_type = SourceType.other "";
        source_id = "";
        external_id = "";
        source_url = "";
        canonical_url = "";
        description = description;
        requirements = requirements;
        responsibilities = responsibilities;
        published_at = 0;
        collected_at = 0;
      } in
      record {
        raw_vacancy = raw;
        normalized_title = normalize_text raw.title;
        normalized_company_name = normalize_text raw.company_name;
        content_hash = hash_vacancy hash_input;
        stripped_description = description;
        stripped_requirements = requirements;
        stripped_responsibilities = responsibilities;
      }
