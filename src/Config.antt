-- ===== src/Config.antt =====
-- internal/config/config.go: the settings, read from the environment.
pub mod Checked
use Prim.Native.String.{[], ◌∷◌}
use job_scout_ai.Prelude.{
  String, [], ◌∷◌, Bool, true, false, not, ◌&&◌, Option, none, some, if◌then◌else◌, Result, ok, err,
  message, ℤ, pos, eqb_ℤ,
}
use job_scout_ai.Strings.{is_nil, trim_space, ◌+++◌}
use job_scout_ai.Strings.Numbers.{atoi, parse_bool, Parsed}
use job_scout_ai.Core.Types.{ScoringConfig, ScoringWeights}
use job_scout_ai.Core.Scoring.{default_scoring_config, validate}

pub record Config : Type 0 where
  pub environment : String
  pub http_addr : String
  pub database_url : String
  pub app_name : String
  pub owner_email : String
  pub hh_user_agent : String
  pub hh_access_token : String
  pub hh_base_url : String
  pub hh_page_size : ℤ
  pub hh_max_pages : ℤ
  pub hh_min_delay_ms : ℤ
  pub max_vacancy_age_days : ℤ
  pub search_timeout_sec : ℤ
  pub enable_telegram : Bool
  pub telegram_bot_token : String
  pub telegram_owner_id : ℤ
  pub scoring : ScoringConfig

-- os.Getenv: a variable that is not set is empty.
module _ (env : String → String) where
  unfoldable pub get_env : String → String → String
  unfolding trim_space
  get_env key fallback =
      let value = trim_space (env key) in if is_nil value then fallback else value

  abbrev pub parsed_or : ℤ → Parsed → ℤ
  parsed_or fallback (n, true) = n
  parsed_or fallback (n, false) = fallback

  -- getEnvInt and getEnvInt64
  unfoldable pub get_env_int : String → ℤ → ℤ
  unfolding trim_space atoi
  get_env_int key fallback =
      let value = trim_space (env key) in
      if is_nil value then fallback else parsed_or fallback (atoi value)

  abbrev pub bool_or : Bool → Option Bool → Bool
  bool_or fallback none = fallback
  bool_or fallback (some b) = b

  unfoldable pub get_env_bool : String → Bool → Bool
  unfolding trim_space parse_bool
  get_env_bool key fallback =
      let value = trim_space (env key) in
      if is_nil value then fallback else bool_or fallback (parse_bool value)

  unfoldable pub scoring_from_env : ScoringConfig → ScoringConfig
  unfolding get_env get_env_int
  scoring_from_env d = record {
    weights = record {
      role_weight = get_env_int "SCORING_ROLE_WEIGHT" d.weights.role_weight;
      skills_weight = get_env_int "SCORING_SKILLS_WEIGHT" d.weights.skills_weight;
      experience_weight = get_env_int "SCORING_EXPERIENCE_WEIGHT" d.weights.experience_weight;
      grade_weight = get_env_int "SCORING_GRADE_WEIGHT" d.weights.grade_weight;
      location_weight = get_env_int "SCORING_LOCATION_WEIGHT" d.weights.location_weight;
      salary_weight = get_env_int "SCORING_SALARY_WEIGHT" d.weights.salary_weight;
      domain_weight = get_env_int "SCORING_DOMAIN_WEIGHT" d.weights.domain_weight;
    };
    apply_threshold = get_env_int "SCORING_APPLY_THRESHOLD" d.apply_threshold;
    review_threshold = get_env_int "SCORING_REVIEW_THRESHOLD" d.review_threshold;
    version = get_env "SCORING_VERSION" d.version;
  }

  -- What Load reads, before it checks.
  unfoldable pub read_config : Config
  unfolding get_env get_env_int get_env_bool trim_space default_scoring_config scoring_from_env
  read_config = record {
    environment = get_env "APP_ENV" "development";
    http_addr = get_env "HTTP_ADDR" ":8080";
    database_url = trim_space (env "DATABASE_URL");
    app_name = get_env "APP_NAME" "JobScout AI";
    owner_email = get_env "OWNER_EMAIL" "owner@example.com";
    hh_user_agent = trim_space (env "HH_USER_AGENT");
    hh_access_token = trim_space (env "HH_ACCESS_TOKEN");
    hh_base_url = get_env "HH_BASE_URL" "https://api.hh.ru";
    hh_page_size = get_env_int "HH_PAGE_SIZE" (pos 20);
    hh_max_pages = get_env_int "HH_MAX_PAGES" (pos 3);
    hh_min_delay_ms = get_env_int "HH_MIN_DELAY_MS" (pos 500);
    max_vacancy_age_days = get_env_int "MAX_VACANCY_AGE_DAYS" (pos 45);
    search_timeout_sec = get_env_int "SEARCH_TIMEOUT_SEC" (pos 45);
    enable_telegram = get_env_bool "ENABLE_TELEGRAM" true;
    telegram_bot_token = trim_space (env "TELEGRAM_BOT_TOKEN");
    telegram_owner_id = get_env_int "TELEGRAM_OWNER_ID" (pos 0);
    scoring = scoring_from_env default_scoring_config;
  }

abbrev pub user_agent_of : Config → String
user_agent_of cfg =
    if is_nil cfg.hh_user_agent
    then cfg.app_name +++ "/1.0 (" +++ cfg.owner_email +++ ")"
    else cfg.hh_user_agent

-- The Telegram part, without a token for the bot it is switched off.
unfoldable pub check_telegram : Config → Result Config
check_telegram cfg =
    let enabled = cfg.enable_telegram && not (is_nil cfg.telegram_bot_token) in
    if enabled && eqb_ℤ cfg.telegram_owner_id (pos 0)
    then err (message "TELEGRAM_OWNER_ID is required when ENABLE_TELEGRAM is true")
    else ok (record cfg { enable_telegram = enabled })

abbrev pub checked_scoring : Config → Result (Unit {0}) → Result Config
checked_scoring cfg (ok t) = check_telegram cfg
checked_scoring cfg (err e) = err e

-- The checks of Load, in their order.
unfoldable pub check_config : Config → Result Config
unfolding validate check_telegram
check_config cfg =
    if is_nil cfg.database_url
    then err (message "DATABASE_URL is required")
    else checked_scoring (record cfg { hh_user_agent = user_agent_of cfg }) (validate cfg.scoring)

unfoldable pub load : (String → String) → Result Config
unfolding read_config check_config
load env = check_config (read_config env)
