-- ===== src/Tests/Configs.antt =====
-- A configuration from a few variables.
use mathlib.Core.List.{Memᴰ}
use mathlib.Core.List.Memᴰ
use politburo.Prelude.{
  eq_of_some, length, ℕ, ◌+◌, inl, inr, String, true, Option, none, some, List, [], ◌∷◌, ◌==◌,
  if◌then◌else◌, ◌≡◌, ◌≢◌, refl,
}
use politburo.Strings.{trim_space, trim_left, trim_right, is_space}
use politburo.Auth.Tickets.{Bytes}
use politburo.Flights.{Flight, flight_id}
use politburo.Config.{Config, ok}
use politburo.Config.Env.{System, secret, csv, kept_items, split_commas, database_url}
use politburo.Config.SecretKey.{bytes_of, decode_hex, nibble, secret_of, parse_signed_link_secret}
use politburo.Config.Load.{read_secrets, config_of, checked, load}
use politburo.Config.Valid.{IsValid, load-IsValid}
use politburo.Api.Flights.{TrimmedFlight}
use politburo.Api.Flights.Trimmed.{token_of, mark}
use politburo.Api.Flights.Marked.{AreMarks}
use politburo.Api.Flights.Complete.{load-mark}
use politburo.Tests.Unary.{unary, unary-IsCipher}
use politburo.Tests.Markers.{json, json-IsJson}
use politburo.Tests.Samples.{sample}

-- the jobs are enabled, the key of the API is in a file, and a list of origins is given
abbrev pub sys : System
sys = record {
  getenv = λ k.
      if k == "JOBS_ENABLED"
      then "true"
      else if k == "IF_API_KEY_FILE"
      then "/run/key"
      else if k == "CORS_ALLOWED_ORIGINS"
      then "https://a, ,https://b"
      else "";
  read_file = λ path. if path == "/run/key" then some "k1\n" else none;
  parse_bool = λ s. if s == "true" then some true else none;
  atoi = λ s. if s == "8082" then some 8082 else if s == "6379" then some 6379 else none;
  parse_duration = λ s. none;
  parse_request_uri = λ s. some (record { scheme = "https"; host = s });
  user_password = λ user password. user;
}

abbrev local_secret : Bytes
local_secret =
    0x01 ∷ 0x23 ∷ 0x45 ∷ 0x67 ∷ 0x89 ∷ 0xab ∷ 0xcd ∷ 0xef ∷ 0x01 ∷ 0x23 ∷ 0x45 ∷ 0x67 ∷ 0x89 ∷ 0xab
    ∷ 0xcd ∷ 0xef ∷ 0x01 ∷ 0x23 ∷ 0x45 ∷ 0x67 ∷ 0x89 ∷ 0xab ∷ 0xcd ∷ 0xef ∷ 0x01 ∷ 0x23 ∷ 0x45
    ∷ 0x67 ∷ 0x89 ∷ 0xab ∷ 0xcd ∷ 0xef ∷ []

abbrev cfg : Config
cfg =
    config_of sys
      (record {
        database_url = "";
        postgres_password = "iepass";
        redis_password = "";
        infinite_flight_api_key = "k1";
        signed_link_secret = "";
      })
      local_secret

was_loaded : load sys ≡ ok cfg
unfolding load read_secrets secret trim_right parse_signed_link_secret trim_space trim_left
    secret_of bytes_of decode_hex nibble config_of checked database_url csv split_commas kept_items
    is_space
was_loaded = refl

load-IsValid_example : IsValid sys cfg
load-IsValid_example = load-IsValid sys cfg was_loaded

abbrev draw : ℕ → Option Bytes × ℕ
draw n = (some (n ∷ []), n + 1)

named : ◌≢◌ {A = String} "training_server" ""
named e = cc

one_named : (f : Flight) → Memᴰ f (sample "f1" "A320" ∷ []) → flight_id f ≢ ""
one_named f m = elim (Memᴰ.cases_cons m) [
  | inl same ↦ rw same (λ e. cc)
  | inr later ↦ absurd (Memᴰ.not-nil later)
]

one_written :
    (f : Flight)
    → Memᴰ f (sample "f1" "A320" ∷ [])
    → (b : Bytes) × (json.marshal (token_of "training_server" f) ≡ some b)
one_written f m = elim (Memᴰ.cases_cons m) [
  | inl same ↦ rw same (1 ∷ [], refl)
  | inr later ↦ absurd (Memᴰ.not-nil later)
]

draw_size : (n : ℕ) (nonce : Bytes) → (draw n).0 ≡ some nonce → length nonce ≡ 1
draw_size n nonce e = let same : n ∷ [] ≡ nonce = eq_of_some e in rw (← same) refl

load-mark_example :
    (ms : List TrimmedFlight) × (n : ℕ) × (mark unary json local_secret draw "training_server"
        (sample "f1" "A320" ∷ [])
        0
      ≡ (some ms, n))
    × AreMarks unary json local_secret "training_server" (sample "f1" "A320" ∷ []) ms
unfolding config_of
load-mark_example =
    load-mark sys cfg unary unary-IsCipher json json-IsJson draw draw_size (λ secret size. refl)
      (λ n. (n ∷ [], n + 1, refl)) "training_server" (sample "f1" "A320" ∷ []) 0 was_loaded named
      one_named one_written
