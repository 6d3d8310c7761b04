-- ===== src/Config.antt =====
-- internal/config/config.go: the configuration of the program, and the errors of reading it.
pub mod Env
pub mod SecretKey
pub mod Load
pub mod Valid
pub mod HexKey
pub mod Settings
use politburo.Prelude.{String, Bool, true, false, List, ◌≡◌, refl}
use politburo.Ints.{Int64}
use politburo.Auth.Tickets.{Bytes}

-- a `time.Duration`, in nanoseconds
abbrev pub Duration : Type 0
Duration = Int64

pub record Auth : Type 0 where
  pub signed_link_secret : Bytes
  pub ui_base_url : String

pub record Http : Type 0 where
  pub port : String
  pub allowed_origins : List String
  pub read_timeout : Duration
  pub write_timeout : Duration
  pub idle_timeout : Duration
  pub shutdown_timeout : Duration

pub record Database : Type 0 where
  pub url : String
  pub ping_timeout : Duration

pub record Redis : Type 0 where
  pub host : String
  pub port : String
  pub password : String
  pub db : Int64
  pub dial_timeout : Duration
  pub read_timeout : Duration
  pub write_timeout : Duration
  pub ping_timeout : Duration

pub record Jobs : Type 0 where
  pub enabled : Bool

pub record InfiniteFlight : Type 0 where
  pub base_url : String
  pub api_key : String
  pub request_timeout : Duration

pub record Config : Type 0 where
  pub environment : String
  pub http : Http
  pub database : Database
  pub redis : Redis
  pub jobs : Jobs
  pub infinite_flight : InfiniteFlight
  pub auth : Auth

-- `Redis.Address`; the argument is `net.JoinHostPort`
abbrev pub address : (String → String → String) → Redis → String
address join_host_port r = join_host_port r.host r.port

-- the errors of `Load`, one for each message
pub data ConfigError : Type 0 where
  both_set : String → ConfigError
  unreadable_file : String → ConfigError
  secret_required : ConfigError
  invalid_secret : ConfigError
  ui_url_not_absolute : ConfigError
  port_not_numeric : ConfigError
  database_url_empty : ConfigError
  redis_port_not_numeric : ConfigError
  redis_db_negative : ConfigError
  api_url_not_absolute : ConfigError
  api_key_required : ConfigError

pub data Result (A : Type 0) : Type 0 where
  ok : A → Result A
  err : ConfigError → Result A

-- `if err != nil { return Config{}, err }`, and the rest of the function
abbrev pub and_then : {A B : Type 0} → Result A → (A → Result B) → Result B
and_then (ok a) rest = rest a
and_then (err e) rest = err e

-- a check that ends the function with an error
abbrev pub unless : {B : Type 0} → Bool → ConfigError → Result B → Result B
unless true e rest = err e
unless false e rest = rest

pub and_then-ok :
    {A B : Type 0} (r : Result A) (rest : A → Result B) (b : B)
    → and_then r rest ≡ ok b
    → (a : A) × (r ≡ ok a) × (rest a ≡ ok b)
and_then-ok (ok a) rest b e = (a, refl, e)
and_then-ok (err x) rest b e = cc

pub unless-ok :
    {B : Type 0} (t : Bool) (x : ConfigError) (rest : Result B) (b : B)
    → unless t x rest ≡ ok b
    → (t ≡ false) × (rest ≡ ok b)
unless-ok true x rest b e = cc
unless-ok false x rest b e = (refl, e)

pub eq_of_ok : {A : Type 0} {a b : A} → ok a ≡ ok b → a ≡ b
eq_of_ok e = cc

pub err≢ok : {A : Type 0} {x : ConfigError} {a : A} → err x ≡ ok a → ⊥
err≢ok e = cc
