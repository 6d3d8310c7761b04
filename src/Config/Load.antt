-- ===== src/Config/Load.antt =====
-- internal/config/config.go: `Load`.
use politburo.Prelude.{
  Char, code, String, Bool, true, false, Option, none, some, [], ◌∷◌, ◌*◌, ◌==◌, ◌&&◌, ◌||◌, eqb,
}
use politburo.Ints.{is_negative}
use politburo.Strings.{trim_right}
use politburo.Auth.Tickets.{Bytes}
use politburo.Config.{Duration, Config, ConfigError, Result, ok, and_then, unless}
use politburo.Config.Env.{Url, System, secret, env, boolean, integer, duration, csv, database_url}
use politburo.Config.SecretKey.{parse_signed_link_secret}

abbrev pub seconds : Duration
seconds = 1000000000

abbrev pub is_slash : Char → Bool
is_slash c = eqb (code c) 47

abbrev pub is_none {ℓ} : {A : Type ℓ} → Option A → Bool
is_none none = true
is_none (some a) = false

-- `err != nil || u.Scheme == "" || u.Host == ""`
abbrev pub is_relative : Option Url → Bool
is_relative none = true
is_relative (some u) = u.scheme == "" || u.host == ""

-- the five secrets
pub record Secrets : Type 0 where
  pub database_url : String
  pub postgres_password : String
  pub redis_password : String
  pub infinite_flight_api_key : String
  pub signed_link_secret : String

module _ (sys : System) where
  unfoldable pub read_secrets : Result Secrets
  unfolding secret
  read_secrets = and_then (secret sys "DATABASE_URL" "") (λ database_url.
      and_then (secret sys "PG_PASSWORD" "iepass") (λ postgres_password.
        and_then (secret sys "REDIS_PASSWORD" "") (λ redis_password.
          and_then (secret sys "IF_API_KEY" "") (λ infinite_flight_api_key.
            and_then (secret sys "SIGNED_LINK_SECRET" "") (λ signed_link_secret. ok (record {
              database_url = database_url;
              postgres_password = postgres_password;
              redis_password = redis_password;
              infinite_flight_api_key = infinite_flight_api_key;
              signed_link_secret = signed_link_secret;
            }))))))

  abbrev pub environment_of : String
  environment_of = env sys "APP_ENV" "local"

  abbrev pub ui_base_url_of : String
  ui_base_url_of = trim_right is_slash (env sys "UI_BASE_URL" "http://localhost:8082")

  unfoldable pub config_of : Secrets → Bytes → Config
  unfolding csv database_url
  config_of s parsed_secret = record {
    environment = environment_of;
    http = record {
      port = env sys "PORT" "8082";
      allowed_origins =
          csv sys "CORS_ALLOWED_ORIGINS" ("http://localhost:8081" ∷ "http://127.0.0.1:8081" ∷ []);
      read_timeout = duration sys "HTTP_READ_TIMEOUT" (15 * seconds);
      write_timeout = duration sys "HTTP_WRITE_TIMEOUT" (15 * seconds);
      idle_timeout = duration sys "HTTP_IDLE_TIMEOUT" (60 * seconds);
      shutdown_timeout = duration sys "HTTP_SHUTDOWN_TIMEOUT" (30 * seconds);
    };
    database = record {
      url = database_url sys s.database_url s.postgres_password;
      ping_timeout = duration sys "DB_PING_TIMEOUT" (5 * seconds);
    };
    redis = record {
      host = env sys "REDIS_HOST" "localhost";
      port = env sys "REDIS_PORT" "6379";
      password = s.redis_password;
      db = integer sys "REDIS_DB" 0;
      dial_timeout = duration sys "REDIS_DIAL_TIMEOUT" (5 * seconds);
      read_timeout = duration sys "REDIS_READ_TIMEOUT" (3 * seconds);
      write_timeout = duration sys "REDIS_WRITE_TIMEOUT" (3 * seconds);
      ping_timeout = duration sys "REDIS_PING_TIMEOUT" (5 * seconds);
    };
    jobs = record { enabled = boolean sys "JOBS_ENABLED" false };
    infinite_flight = record {
      base_url = env sys "IF_API_BASE_URL" "https://api.infiniteflight.com/public/v2";
      api_key = s.infinite_flight_api_key;
      request_timeout = duration sys "IF_API_REQUEST_TIMEOUT" (15 * seconds);
    };
    auth = record { signed_link_secret = parsed_secret; ui_base_url = ui_base_url_of };
  }

  -- the checks at the end of `Load`
  unfoldable pub checked : Config → Result Config
  checked cfg = unless (is_none (sys.atoi cfg.http.port)) ConfigError.port_not_numeric (
      unless (cfg.database.url == "") ConfigError.database_url_empty (
        unless (is_none (sys.atoi cfg.redis.port)) ConfigError.redis_port_not_numeric (
          unless (is_negative cfg.redis.db) ConfigError.redis_db_negative (
            unless (is_relative (sys.parse_request_uri cfg.infinite_flight.base_url))
              ConfigError.api_url_not_absolute
              (unless (cfg.jobs.enabled && (cfg.infinite_flight.api_key == ""))
                ConfigError.api_key_required (ok cfg))))))

  abbrev pub with_secret : Secrets → Bytes → Result Config
  with_secret s parsed_secret =
      unless (is_relative (sys.parse_request_uri ui_base_url_of)) ConfigError.ui_url_not_absolute
        (checked (config_of s parsed_secret))

  abbrev pub with_secrets : Secrets → Result Config
  with_secrets s =
      and_then (parse_signed_link_secret s.signed_link_secret environment_of) (with_secret s)

  unfoldable pub load : Result Config
  load = and_then read_secrets with_secrets
