-- ===== src/Tests/Service.antt =====
-- The service at work: its settings, its API and its bot.
use Prim.Native.String.{[], ◌∷◌}
use job_scout_ai.Prelude.{
  ℕ, String, ◌≡◌, refl, sym, ◌∙◌, [], ◌∷◌, true, false, Bool, List, none, some, Option, ap, Result,
  ok, err, message, arith, ℤ, pos, pos_part, leb_ℤ, ◌≤ℤ◌, ◌<ℤ◌, All, if◌then◌else◌, ◌==◌, ◌*◌,
}
use mathlib.Core.Path.{subst}
use job_scout_ai.Core.Normalize.{has_char}
use job_scout_ai.Config.{Config, load, read_config}
use job_scout_ai.Config.Checked.{Usable, completed, load-Usable}
use job_scout_ai.Core.SourceType.{headhunter_api}
use job_scout_ai.Core.Types.{JobSource, Vacancy}
use job_scout_ai.Core.VacancyStatus
use job_scout_ai.Store.Exec.{◌>>=◌}
use job_scout_ai.Store.Lists.{VacancyWithMatch}
use job_scout_ai.Hh
use job_scout_ai.Telegram
use job_scout_ai.Telegram.{User, Chat, Message, CallbackQuery, Update, Call, send_message}
use job_scout_ai.App.View.{ApplicationView}
use job_scout_ai.App.Search.{Outcome, no_results, search_sources}
use job_scout_ai.App.Search.Counters.{Counted}
use job_scout_ai.App.Search.Counts.{search_sources-Counted}
use job_scout_ai.App.Http.{Body, no_body, Request, Decoders, Payload}
use job_scout_ai.App.Http.Router.{serve}
use job_scout_ai.App.Http.Reads.{serve_get}
use job_scout_ai.App.Bot.Commands.{prepare, skip}
use job_scout_ai.App.Bot.{handle_telegram_update, handle_updates, poll}
use job_scout_ai.App.Bot.Cards.{vacancy_card_markup, application_status_markup}
use job_scout_ai.App.Bot.Strangers.{strangers_denied}
use job_scout_ai.App.Bot.Buttons.{asked_by, offered, buttons_asked}
use job_scout_ai.App.Bot.Polling.{Honoured, handled, updates_once}
use job_scout_ai.Store.Applications.{Sound, Follows}
use job_scout_ai.App.Events.{Event, http, telegram, events, events-Sound}
use job_scout_ai.Tests.Fixtures.{
  app, application, profile, vacancy, company, world, world-Sound, world-Fresh,
}

abbrev environment : String → String
environment key =
    if key == "DATABASE_URL"
    then " postgres://localhost/jobscout "
    else if key == "HH_PAGE_SIZE"
    then "50"
    else ""

abbrev config_of : Result Config → Config
config_of (ok cfg) = cfg
config_of (err e) = app.cfg

load-Usable_example :
    Usable (config_of (load environment))
    × (config_of (load environment) ≡ completed (read_config environment))
unfolding load
load-Usable_example = load-Usable environment (config_of (load environment)) refl

abbrev headhunter : JobSource
headhunter = record {
  id = "source";
  type = headhunter_api;
  name = "hh";
  enabled = true;
  configuration = [];
  last_successful_sync_at = none;
  last_error_at = none;
  created_at = 1;
  updated_at = 1;
}

abbrev one_page : Hh.SearchResponse
one_page = record {
  found = pos 1;
  pages = pos 1;
  per_page = pos 20;
  items = record { id = "77"; name = "backend"; alternate_url = ""; published_at = "" } ∷ [];
}

-- One page with one vacancy, whose details cannot be read.
abbrev one_vacancy : Hh.Client
one_vacancy = record {
  search_vacancies = λ query page per_page n. ok one_page;
  get_vacancy = λ id n. err (message "no details");
}

abbrev decoders : Decoders
decoders = record {
  profile = λ s. err (message s);
  search_query = λ s. ok s;
  manual_import = λ s. err (message s);
  status = λ s. ok s;
  resume_create = λ s. err (message s);
  resume_patch = λ s. err (message s);
  resume_id = λ s. ok none;
  application_outcome = λ s. err (message s);
}

abbrev request : String → String → Body → Request
request method path body = record {
  method = method;
  path = path;
  query = λ key. "";
  x_actor = "owner";
  body = body;
}

serve_get_example : (serve app decoders (request "GET" "/v1/applications" no_body) world).1 ≡ world
serve_get_example = serve_get app decoders (request "GET" "/v1/applications" no_body) world refl

-- A path that is not clean.
redirected :
    (serve app decoders (request "GET" "/v1//vacancies/../resumes/" no_body) world).0
    ≡ ok (record { status = 301; allow = ""; payload = Payload.moved "/v1/resumes/" })
unfolding serve
redirected = refl

abbrev user : ℤ → User
user id = record { id = id; is_bot = false; first_name = "U"; username = "u" }

abbrev chat : Chat
chat = record { id = pos 3; type = "private"; username = "u" }

abbrev update : ℤ → ℤ → String → Update
update update_id from text = record {
  update_id = update_id;
  message = some (record { message_id = pos 1; from = some (user from); chat = chat; text = text });
  callback_query = none;
}

abbrev id_of : Option User → ℤ
id_of none = pos 0
id_of (some u) = u.id

abbrev is_five : ℤ → Bool
is_five o = leb_ℤ o (pos 5)

-- A Bot API that has the update 5 for whoever asks for it.
abbrev bot_api : Telegram.Client
bot_api = record {
  get_updates = λ o n. ok (if is_five o then update (pos 5) (pos 7) "/start" ∷ [] else []);
  answer = λ call n. none;
}

strangers_denied_example :
    ((handle_telegram_update app bot_api (update (pos 5) (pos 8) "/search") world).1.db ≡ world.db)
    × ((handle_telegram_update app bot_api (update (pos 5) (pos 8) "/search") world).1.outbox
        ≡ send_message (pos 3) "Access denied." none ∷ [])
unfolding app
strangers_denied_example =
    strangers_denied app bot_api (update (pos 5) (pos 8) "/search") world λ u e k.
      let g : 8 ≡ 7 = ap (λ z. pos_part (id_of z)) e ∙ ap pos_part k in absurd (omega (arith, g))

-- A search whose only item fails.
search_sources-Counted_example :
    (o : Outcome) × ((search_sources app one_vacancy "sql" profile 1000
        (headhunter ∷ [])
        no_results
        world).0
      ≡ ok o)
    × Counted 0
        (pos_part app.cfg.hh_max_pages * 1)
        o.summary
        (search_sources app one_vacancy "sql" profile 1000 (headhunter ∷ []) no_results world).1
search_sources-Counted_example =
    search_sources-Counted app one_vacancy "sql" profile 1000 (headhunter ∷ []) world

abbrev view : ApplicationView
view = record {
  application = application;
  vacancy = some vacancy;
  company = none;
  match = none;
  resume = none;
  warnings = [];
  vacancy_url = "";
  created = false;
}

abbrev vacancy_id_of : Option Vacancy → String
vacancy_id_of none = ""
vacancy_id_of (some x) = x.id

abbrev item : VacancyWithMatch
item = record { vacancy = vacancy; company = some company; match = none }

buttons_asked_example :
    (asked_by (application_status_markup view).inline_keyboard
      ≡ offered application.status "application" (some vacancy))
    × (asked_by (vacancy_card_markup item).inline_keyboard ≡ (
        if VacancyStatus.same vacancy.status VacancyStatus.archived
        then []
        else prepare "vacancy" ∷ skip "vacancy" ∷ []))
unfolding has_char
buttons_asked_example =
    buttons_asked view item refl (λ x e. ap (λ z. has_char b':' (vacancy_id_of z)) (sym e)) refl

abbrev batch : Bool → List Update
batch b = if b then update (pos 5) (pos 7) "/start" ∷ [] else []

abbrev updates_of : Result (List Update) → List Update
updates_of (ok us) = us
updates_of (err e) = []

batch-From : (o : ℤ) (b : Bool) → is_five o ≡ b → All (λ v. o ≤ℤ v.update_id) (batch b)
batch-From o true e = (ground (arith, e), tt)
batch-From o false e = tt

honoured : Honoured app bot_api
honoured o n vs e =
    subst (All (λ v. o ≤ℤ v.update_id)) (ap updates_of e) (batch-From o (is_five o) refl)

updates_once_example :
    ((handle_updates app bot_api (pos 0) (update (pos 5) (pos 7) "/start" ∷ []) world).1
      ≡ handled app bot_api (update (pos 5) (pos 7) "/start" ∷ []) world)
    × ((o : ℤ) × (((handle_updates app bot_api (pos 0) (update (pos 5) (pos 7) "/start" ∷ [])
              >>= poll app bot_api 3)
            world).0
          ≡ ok o)
        × ((n : ℕ) (vs : List Update)
            → bot_api.get_updates o n ≡ ok vs
            → All
                (λ v. All (λ u. u.update_id <ℤ v.update_id) (update (pos 5) (pos 7) "/start" ∷ []))
                vs))
updates_once_example =
    updates_once app bot_api honoured (pos 0) (update (pos 5) (pos 7) "/start" ∷ []) 3 world

-- The owner approves over the API and asks the bot for a search.
abbrev outside : List Event
outside =
    http (request "POST" "/v1/applications/application/approve" no_body)
    ∷ telegram (update (pos 5) (pos 7) "/search backend")
    ∷ []

events-Sound_example :
    Sound (events app decoders bot_api outside world).db.applications
    × Follows world.db.applications (events app decoders bot_api outside world).db.applications
events-Sound_example = events-Sound app decoders bot_api outside world world-Sound world-Fresh
