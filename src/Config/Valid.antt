-- ===== src/Config/Valid.antt =====
-- What a configuration that was loaded satisfies.
use politburo.Prelude.{
  String, Bool, true, false, Option, none, some, ◌==◌, ◌&&◌, eqb, eqb_iff, length, ◌≡◌, ◌≢◌, ◌⊎◌,
  inl, inr, refl, subst, arith, eq_iff, Bool-cases,
}
use politburo.Ints.{Int64, is_negative}
use politburo.Strings.{trim_space}
use politburo.Auth.Tickets.{Bytes}
use politburo.Config.{Config, ConfigError, ok, err, and_then-ok, unless-ok, eq_of_ok, err≢ok}
use politburo.Config.Env.{Url, System}
use politburo.Config.SecretKey.{
  local_signed_link_secret_hex, bytes_of, decode_hex, with_decoded, secret_of,
  parse_signed_link_secret,
}
use politburo.Config.Load.{
  is_none, is_relative, Secrets, read_secrets, config_of, checked, with_secret, with_secrets, load,
}

abbrev pub IsNumeric : System → String → Type 0
IsNumeric sys s = (n : Int64) × (sys.atoi s ≡ some n)

abbrev pub IsAbsolute : System → String → Type 0
IsAbsolute sys s = (u : Url) × (sys.parse_request_uri s ≡ some u) × (u.scheme ≢ "") × (u.host ≢ "")

-- what the checks of `Load` establish
pub record IsValid (sys : System) (cfg : Config) : Type 0 where
  pub port : IsNumeric sys cfg.http.port
  pub database_url : cfg.database.url ≢ ""
  pub redis_port : IsNumeric sys cfg.redis.port
  pub redis_db : is_negative cfg.redis.db ≡ false
  pub api_url : IsAbsolute sys cfg.infinite_flight.base_url
  pub ui_url : IsAbsolute sys cfg.auth.ui_base_url
  pub api_key : (cfg.jobs.enabled ≡ false) ⊎ (cfg.infinite_flight.api_key ≢ "")
  pub secret : length cfg.auth.signed_link_secret ≡ 32

IsNumeric-of_is_none : (o : Option Int64) → is_none o ≡ false → (n : Int64) × (o ≡ some n)
IsNumeric-of_is_none none e = cc
IsNumeric-of_is_none (some n) e = (n, refl)

IsAbsolute-of_is_relative :
    (o : Option Url)
    → is_relative o ≡ false
    → (u : Url) × (o ≡ some u) × (u.scheme ≢ "") × (u.host ≢ "")
IsAbsolute-of_is_relative none e = cc
IsAbsolute-of_is_relative (some u) e =
    let scheme : u.scheme ≢ "" = ground (arith, eq_iff u.scheme "") in
    let host : u.host ≢ "" = ground (arith, eq_iff u.host "") in (u, refl, scheme, host)

length-with_decoded : (o : Option Bytes) (b : Bytes) → with_decoded o ≡ ok b → length b ≡ 32
length-with_decoded none b e = cc
length-with_decoded (some d) b e = elim (Bool-cases (eqb (length d) 32)) [
  | inl size ↦
      let same : ok d ≡ ok b = rw size at e in
      let bytes : d ≡ b = cc in rw (← bytes) (ground (arith, eqb_iff (length d) 32))
  | inr other ↦ let no_result : err ConfigError.invalid_secret ≡ ok b = rw other at e in cc
]

length-secret_of : (raw b : Bytes) → secret_of raw ≡ ok b → length b ≡ 32
unfolding secret_of
length-secret_of raw b e = elim (Bool-cases (eqb (length raw) 64)) [
  | inl long ↦ length-with_decoded (decode_hex raw) b (rw long at e)
  | inr other ↦ elim (Bool-cases (eqb (length raw) 32)) [
    | inl size ↦
        let same : ok raw ≡ ok b = rw (other, size) at e in
        let bytes : raw ≡ b = cc in rw (← bytes) (ground (arith, eqb_iff (length raw) 32))
    | inr wrong ↦
        let no_result : err ConfigError.invalid_secret ≡ ok b = rw (other, wrong) at e in cc
  ]
]

-- A secret that is taken has 32 bytes.
pub length-parse_signed_link_secret :
    (raw environment : String) (b : Bytes)
    → parse_signed_link_secret raw environment ≡ ok b
    → length b ≡ 32
unfolding parse_signed_link_secret
length-parse_signed_link_secret raw environment b e = elim (Bool-cases (trim_space raw == "")) [
  | inl blank ↦ elim (Bool-cases (environment == "local")) [
    | inl is_local ↦
        length-secret_of (bytes_of local_signed_link_secret_hex) b (rw (blank, is_local) at e)
    | inr other ↦ absurd (err≢ok (rw (blank, other) at e))
  ]
  | inr given ↦ length-secret_of (bytes_of (trim_space raw)) b (rw given at e)
]

module _ (sys : System) where
  checked-IsValid :
      (c cfg : Config)
      → length c.auth.signed_link_secret ≡ 32
      → IsAbsolute sys c.auth.ui_base_url
      → checked sys c ≡ ok cfg
      → (c ≡ cfg) × IsValid sys cfg
  unfolding checked
  checked-IsValid c cfg size ui e =
      let (port, e1) = unless-ok _ _ _ cfg e in
      let (url, e2) = unless-ok _ _ _ cfg e1 in
      let (redis_port, e3) = unless-ok _ _ _ cfg e2 in
      let (db, e4) = unless-ok _ _ _ cfg e3 in
      let (api, e5) = unless-ok _ _ _ cfg e4 in
      let (key, e6) = unless-ok _ _ _ cfg e5 in
      let url_given : (c.database.url == "") ≡ false = url in
      let valid : IsValid sys c = record {
        port = IsNumeric-of_is_none _ port;
        database_url = ground (arith, eq_iff c.database.url "");
        redis_port = IsNumeric-of_is_none _ redis_port;
        redis_db = db;
        api_url = IsAbsolute-of_is_relative _ api;
        ui_url = ui;
        api_key = key_of c.jobs.enabled c.infinite_flight.api_key key;
        secret = size;
      } in
      (eq_of_ok e6, subst (IsValid sys) (eq_of_ok e6) valid)
    where
      key_of :
          (enabled : Bool) (k : String)
          → (enabled && (k == "")) ≡ false
          → (enabled ≡ false) ⊎ (k ≢ "")
      key_of false k e = inl refl
      key_of true k e = inr (ground (arith, eq_iff k ""))

  -- where a configuration comes from
  abbrev pub Origin : Config → Type 0
  Origin cfg =
      (s : Secrets) × (b : Bytes) × (read_secrets sys ≡ ok s)
      × (config_of sys s b ≡ cfg)
      × IsValid sys cfg

  pub load-Origin : (cfg : Config) → load sys ≡ ok cfg → Origin cfg
  unfolding load config_of
  load-Origin cfg e =
      let (s, read, e1) = and_then-ok (read_secrets sys) (with_secrets sys) cfg e in
      let (b, parsed, e2) = and_then-ok _ (with_secret sys s) cfg e1 in
      let (ui, e3) = unless-ok _ _ _ cfg e2 in
      let (same, valid) =
        checked-IsValid (config_of sys s b) cfg (length-parse_signed_link_secret _ _ b parsed)
          (IsAbsolute-of_is_relative _ ui) e3 in
      (s, b, read, same, valid)

  -- A configuration that is loaded has numeric ports, a database URL, a number of a Redis database
  -- that is not negative, absolute URLs of the UI and of the API, an API key if the jobs are enabled,
  -- and a secret of 32 bytes.
  pub load-IsValid : (cfg : Config) → load sys ≡ ok cfg → IsValid sys cfg
  load-IsValid cfg e = let (s, b, read, same, valid) = load-Origin cfg e in valid
