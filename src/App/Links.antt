-- ===== src/App/Links.antt =====
-- internal/app/app.go: the query of a search, and what a manual import reads off a URL and a text.
use Prim.Native.Char.{Char, code}
use Prim.Native.String.{[], ◌∷◌}
use job_scout_ai.Prelude.{
  String, [], ◌∷◌, Bool, not, ◌||◌, List, ◌++◌, Option, none, some, eqb, if◌then◌else◌, ◌==◌,
}
use job_scout_ai.Host.{Host, Url}
use job_scout_ai.Strings.{
  ◌+++◌, is_nil, trim_space, trim_left, trim_right, contains, map_chars, split, join,
}
use job_scout_ai.Core.SourceType.{SourceType}
use job_scout_ai.Core.Types.{CandidateProfile}
use job_scout_ai.Core.Normalize.{normalize_string_list}
use job_scout_ai.Core.Resume.{is_blank}
use job_scout_ai.Store.Exec.{Exec, pure, new_id, ◌>>=◌}
use job_scout_ai.App.Decision.{hostname_from_url}

unfoldable pub build_search_query : Host → CandidateProfile → String → String
unfolding trim_space normalize_string_list join
build_search_query h profile override =
    if not (is_blank override)
    then trim_space override
    else join
        (normalize_string_list h (
          profile.desired_roles ++ profile.primary_skills ++ profile.secondary_skills
          ++ profile.languages ++ profile.desired_locations))
        " "

unfoldable pub detect_source_type : Host → String → SourceType
unfolding map_chars contains hostname_from_url
detect_source_type h raw =
    let host = map_chars h.to_lower (hostname_from_url h raw) in
    if contains host "hh.ru" || contains host "headhunter" || contains host "api.hh.ru"
    then SourceType.headhunter_api
    else SourceType.manual_url

abbrev pub is_slash : Char → Bool
is_slash c = eqb (code c) b'/'

-- strings.Trim(s, "/")
unfoldable pub trim_slashes : String → String
unfolding trim_left trim_right
trim_slashes s = trim_right is_slash (trim_left is_slash s)

-- The part behind the last slash, and behind none the whole text.
unfoldable pub last_segment : List String → String
last_segment [] = ""
last_segment (s ∷ []) = s
last_segment (s ∷ t ∷ r) = last_segment (t ∷ r)

-- path.Base: "." for no path, and "/" for one of slashes only.
unfoldable pub base : String → String
unfolding trim_right split last_segment
base path =
    if is_nil path
    then "."
    else let trimmed = trim_right is_slash path in
      if is_nil trimmed then "/" else last_segment (split trimmed "/")

-- The segment behind the first "vacancy" or "vacancies" that is not the last one.
unfoldable pub vacancy_segment : List String → Option String
vacancy_segment [] = none
vacancy_segment (s ∷ []) = none
vacancy_segment (s ∷ t ∷ r) =
    let rest = vacancy_segment (t ∷ r) in
    if s == "vacancy" || s == "vacancies" then some t else rest

abbrev pub segment_or_base : String → Option String → String
segment_or_base path none = base path
segment_or_base path (some s) = s

abbrev pub hh_vacancy_id_of : Option Url → String
unfolding trim_slashes split vacancy_segment
hh_vacancy_id_of none = ""
hh_vacancy_id_of (some u) =
    segment_or_base u.path (vacancy_segment (split (trim_slashes u.path) "/"))

unfoldable pub extract_hh_vacancy_id : Host → String → String
unfolding trim_slashes split vacancy_segment base
extract_hh_vacancy_id h raw = hh_vacancy_id_of (h.parse_url raw)

unfoldable pub first_line : List String → String
unfolding trim_space
first_line [] = ""
first_line (line ∷ lines) =
    let rest = first_line lines in
    let trimmed = trim_space line in if is_nil trimmed then rest else trimmed

unfoldable pub extract_first_line : String → String
unfolding first_line split
extract_first_line text = first_line (split text "\n")

-- coreHash is FNV-1a, whose digits the host gives.
unfoldable pub canonical_manual_external_id : Host → String → String → String → Exec String
unfolding ◌>>=◌ trim_space extract_first_line
canonical_manual_external_id h raw text title =
    let seed = trim_space (raw +++ "|" +++ title +++ "|" +++ extract_first_line text) in
    if is_nil seed then new_id else pure ("manual-" +++ h.fnv64a_hex seed)
