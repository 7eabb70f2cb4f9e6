-- ===== src/Config/Checked.antt =====
-- internal/config/config.go, Load: what a configuration that was loaded satisfies.
use Prim.Native.String.{[], ◌∷◌}
use mathlib.Core.Path.{subst}
use job_scout_ai.Prelude.{
  String, ◌≡◌, refl, sym, ap, ◌∙◌, true, false, Bool-cases, inl, inr, Result, ok, err, pos, eqb_ℤ,
  arith, not, ◌&&◌,
}
use text.Mathlib.TextLemmas.{nil-append, cons-append}
use job_scout_ai.Strings.{is_nil, ◌+++◌}
use job_scout_ai.Core.Scoring.{validate}
use job_scout_ai.Config.{
  Config, load, read_config, check_config, check_telegram, checked_scoring, user_agent_of,
}

-- The database and the agent have names, the scoring is valid, and the bot has a token and an owner.
pub record Usable (cfg : Config) : Type 0 where
  pub database : is_nil cfg.database_url ≡ false
  pub agent : is_nil cfg.hh_user_agent ≡ false
  pub scoring : validate cfg.scoring ≡ ok tt
  pub token : cfg.enable_telegram ≡ true → is_nil cfg.telegram_bot_token ≡ false
  pub owner : cfg.enable_telegram ≡ true → eqb_ℤ cfg.telegram_owner_id (pos 0) ≡ false

append_named : (s t : String) → is_nil t ≡ false → is_nil (s +++ t) ≡ false
append_named [] t h = ap is_nil (nil-append t) ∙ h
append_named (c ∷ s) t h = ap is_nil (cons-append c s t)

agent_named : (cfg : Config) → is_nil (user_agent_of cfg) ≡ false
agent_named cfg = elim (Bool-cases (is_nil cfg.hh_user_agent)) [
  | inl y ↦ rw y (
      append_named cfg.app_name ("/1.0 (" +++ cfg.owner_email +++ ")")
        (ap is_nil (cons-append "/" "1.0 (" (cfg.owner_email +++ ")"))))
  | inr n ↦ rw n n
]

-- The settings that Load changes after it has read them.
abbrev pub completed : Config → Config
completed cfg = record cfg {
  hh_user_agent = user_agent_of cfg;
  enable_telegram = cfg.enable_telegram && not (is_nil cfg.telegram_bot_token);
}

module _ (r : Config) where
  telegram_checked :
      (cfg : Config)
      → validate r.scoring ≡ ok tt
      → is_nil r.database_url ≡ false
      → is_nil r.hh_user_agent ≡ false
      → check_telegram r ≡ ok cfg
      → Usable cfg
        × (cfg
            ≡ record r { enable_telegram = r.enable_telegram && not (is_nil r.telegram_bot_token) })
  unfolding check_telegram
  telegram_checked cfg scored stored named e =
      elim (Bool-cases (r.enable_telegram && not (is_nil r.telegram_bot_token))) [
        | inl on ↦ elim (Bool-cases (eqb_ℤ r.telegram_owner_id (pos 0))) [
          | inl y ↦ absurd (ground arith)
          | inr owned ↦
              let p : record r { enable_telegram = true } ≡ cfg = ground arith in
              (
                subst Usable p (record {
                  database = stored;
                  agent = named;
                  scoring = scored;
                  token = λ y. ground arith;
                  owner = λ y. owned;
                }),
                rw on (sym p),
              )
        ]
        | inr off ↦
            let p : record r { enable_telegram = false } ≡ cfg = ground arith in
            (
              subst Usable p (record {
                database = stored;
                agent = named;
                scoring = scored;
                token = λ y. absurd (cc);
                owner = λ y. absurd (cc);
              }),
              rw off (sym p),
            )
      ]

module _ (r : Config) where
  scoring_checked :
      (v : Result (Unit {0})) (cfg : Config)
      → v ≡ validate r.scoring
      → is_nil r.database_url ≡ false
      → checked_scoring (record r { hh_user_agent = user_agent_of r }) v ≡ ok cfg
      → Usable cfg × (cfg ≡ completed r)
  scoring_checked (err e) cfg p stored h = absurd (cc)
  scoring_checked (ok t) cfg p stored h =
      telegram_checked (record r { hh_user_agent = user_agent_of r }) cfg (sym p) stored
        (agent_named r) h

  config_checked : (cfg : Config) → check_config r ≡ ok cfg → Usable cfg × (cfg ≡ completed r)
  unfolding check_config
  config_checked cfg e = elim (Bool-cases (is_nil r.database_url)) [
    | inl y ↦ absurd (ground arith)
    | inr stored ↦ scoring_checked (validate r.scoring) cfg refl stored (rw stored at e)
  ]

-- A configuration that Load returns names a database and a user agent, has a scoring that Validate
-- accepts, and has a token and an owner if the bot is enabled. It is what the environment and the
-- defaults say, but that a missing user agent is made up from the name and the owner of the program, and
-- that the bot is off without a token.
pub load-Usable :
    (env : String → String) (cfg : Config)
    → load env ≡ ok cfg
    → Usable cfg × (cfg ≡ completed (read_config env))
unfolding load
load-Usable env cfg e = config_checked (read_config env) cfg e
