-- ===== src/Config/Env.antt =====
-- internal/config/config.go: the readers of one setting. `System` is what they call of `os`,
-- `strconv`, `time` and `net/url`.
use Prim.Native.String
use politburo.Prelude.{
  Char, code, String, Bool, Option, none, some, List, [], ◌∷◌, ◌==◌, ◌&&◌, ◌||◌, not, eqb,
  if◌then◌else◌,
}
use politburo.Ints.{Int64}
use politburo.Strings.{trim_right, trim_space}
use politburo.Config.{Duration, ConfigError, Result, ok, err}

-- the scheme and the host of a URL
pub record Url : Type 0 where
  pub scheme : String
  pub host : String

-- `getenv` gives `""` for a variable that is not set; `none` is an error
pub record System : Type 0 where
  pub getenv : String → String
  pub read_file : String → Option String
  pub parse_bool : String → Option Bool
  pub atoi : String → Option Int64
  pub parse_duration : String → Option Duration
  pub parse_request_uri : String → Option Url
  pub user_password : String → String → String

abbrev pub or_fallback {ℓ} : {A : Type ℓ} → A → Option A → A
or_fallback fallback none = fallback
or_fallback fallback (some a) = a

-- the cutset of the newlines at the end of a file
abbrev pub is_newline : Char → Bool
is_newline c = eqb (code c) 13 || eqb (code c) 10

-- the field `item` and the fields after it
abbrev pub add_char : Char → List String → List String
add_char c [] = String.◌∷◌ c "" ∷ []
add_char c (item ∷ items) = String.◌∷◌ c item ∷ items

-- `strings.Split(value, ",")`
unfoldable pub split_commas : String → List String
split_commas String.[] = "" ∷ []
split_commas (String.◌∷◌ c s) =
    let rest = split_commas s in if eqb (code c) b',' then "" ∷ rest else add_char c rest

-- the loop of `csv`
unfoldable pub kept_items : List String → List String
kept_items [] = []
kept_items (item ∷ items) =
    let rest = kept_items items in if trim_space item == "" then rest else trim_space item ∷ rest

module _ (sys : System) where
  abbrev pub with_contents : String → Option String → Result String
  with_contents key none = err (ConfigError.unreadable_file key)
  with_contents key (some contents) = ok (trim_right is_newline contents)

  unfoldable pub secret : String → String → Result String
  secret key fallback =
      let value = sys.getenv key in
      let path = sys.getenv (String.◌++◌ key "_FILE") in
      if not (value == "") && not (path == "")
      then err (ConfigError.both_set key)
      else if path == ""
      then ok (if value == "" then fallback else value)
      else with_contents key (sys.read_file path)

  abbrev pub env : String → String → String
  env key fallback = if sys.getenv key == "" then fallback else sys.getenv key

  abbrev pub boolean : String → Bool → Bool
  boolean key fallback =
      if sys.getenv key == ""
      then fallback
      else or_fallback fallback (sys.parse_bool (sys.getenv key))

  abbrev pub integer : String → Int64 → Int64
  integer key fallback =
      if sys.getenv key == "" then fallback else or_fallback fallback (sys.atoi (sys.getenv key))

  abbrev pub duration : String → Duration → Duration
  duration key fallback =
      if sys.getenv key == ""
      then fallback
      else or_fallback fallback (sys.parse_duration (sys.getenv key))

  unfoldable pub csv : String → List String → List String
  csv key fallback =
      if sys.getenv key == "" then fallback else kept_items (split_commas (sys.getenv key))

  unfoldable pub database_url : String → String → String
  database_url override password =
      if not (override == "")
      then override
      else String.◌++◌ "postgres://" (
          String.◌++◌ (sys.user_password (env "PG_USER" "ieuser") password) (
            String.◌++◌ "@" (
              String.◌++◌ (env "PG_HOST" "localhost") (
                String.◌++◌ ":" (
                  String.◌++◌ (env "PG_PORT" "5432") (
                    String.◌++◌ "/"
                      (String.◌++◌ (env "PG_DB" "politburo_next") "?sslmode=disable")))))))
