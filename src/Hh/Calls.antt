-- ===== src/Hh/Calls.antt =====
-- internal/integrations/hh/client.go: the client's settings and its two calls. The URL's other parts, its
-- encoding and JSON are outside; `Requests.Outside` is what the attempts of one request meet.
use Prim.Native.String.{[], ◌∷◌}
use Prim.Native.Char.{Char, code}
use job_scout_ai.Prelude.{String, Bool, eqb, if◌then◌else◌, List, [], ◌∷◌, ℤ, Result}
use job_scout_ai.Strings.{◌+++◌, is_nil, trim_right, trim_space}
use job_scout_ai.Core.Decimal.{itoa}
use job_scout_ai.Hh.{SearchResponse, VacancyDetails}
use job_scout_ai.Hh.Requests.{Outside, Net, get_json}

-- `base_path` is the path of the parsed base URL.
pub record Settings : Type 0 where
  pub base_path : String
  pub user_agent : String
  pub access_token : String
  pub host : String
  pub min_delay : ℤ

-- A request without the base URL's host, with its query and its headers in order.
pub record Request : Type 0 where
  pub path : String
  pub query : List (String × String)
  pub headers : List (String × String)

unfoldable pub new_settings :
    (base_path user_agent access_token host : String) (min_delay : ℤ) → Settings
new_settings base_path user_agent access_token host min_delay = record {
  base_path = base_path;
  user_agent = user_agent;
  access_token = access_token;
  host = if is_nil host then "hh.ru" else host;
  min_delay = min_delay;
}

abbrev is_slash : Char → Bool
is_slash c = eqb (code c) b'/'

module _ (c : Settings) where
  unfoldable pub request : (path : String) → (query : List (String × String)) → Request
  unfolding trim_right
  request path query = record {
    path = trim_right is_slash c.base_path +++ path;
    query = query;
    headers =
        ("User-Agent", c.user_agent)
        ∷ ("HH-User-Agent", c.user_agent)
        ∷ ("Accept", "application/json")
        ∷ (if is_nil c.access_token
            then []
            else ("Authorization", "Bearer " +++ c.access_token) ∷ []);
  }

  unfoldable pub search_query : (query : String) (page per_page : ℤ) → List (String × String)
  unfolding itoa trim_space
  search_query query page per_page =
      ("host", c.host)
      ∷ ("page", itoa page)
      ∷ ("per_page", itoa per_page)
      ∷ (if is_nil (trim_space query) then [] else ("text", query) ∷ [])

  module _ (send : Request → Outside) where
    unfoldable pub search_vacancies :
        (decode : String → Result SearchResponse) (query : String) (page per_page : ℤ)
        → Net
        → Result SearchResponse × Net
    unfolding request search_query get_json
    search_vacancies decode query page per_page =
        get_json (send (request "/vacancies" (search_query query page per_page))) decode c.min_delay

    unfoldable pub get_vacancy :
        (path_escape : String → String) (decode : String → Result VacancyDetails)
        (vacancy_id : String)
        → Net
        → Result VacancyDetails × Net
    unfolding request get_json
    get_vacancy path_escape decode vacancy_id =
        get_json (send (request ("/vacancies/" +++ path_escape vacancy_id) (("host", c.host) ∷ [])))
          decode c.min_delay
