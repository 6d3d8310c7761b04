-- ===== src/Upstream.antt =====
-- internal/infiniteflight: what the Infinite Flight API returns, and session names.
pub mod Client
use politburo.Prelude.{ℕ, String, Bool, Option, Char}
use politburo.Ints.{Int64}
use politburo.Strings.{trim_space, to_lower, replace_char}

-- A float64, by its bit pattern. The operations on it are those of `Numerics`.
abbrev pub Float64 : Type 0
Float64 = ℕ

-- An instant in nanoseconds since January 1 of the year 1, UTC. The zero value of `time.Time` is 0.
abbrev pub Time : Type 0
Time = ℕ

pub record Session : Type 0 where
  pub id : String
  pub name : String
  pub world_type : Int64
  pub type : Int64
  pub minimum_grade_level : Int64
  pub user_count : Int64
  pub minimum_app_version : String
  pub maximum_app_version : Option String
  pub max_users : Int64
  pub normalized_name : String
  pub timestamp : Time

pub record Flight : Type 0 where
  pub username : Option String
  pub callsign : String
  pub latitude : Float64
  pub longitude : Float64
  pub altitude : Float64
  pub speed : Float64
  pub vertical_speed : Float64
  pub track : Float64
  pub heading : Float64
  pub last_report : String
  pub flight_id : String
  pub user_id : String
  pub aircraft_id : String
  pub livery_id : String
  pub virtual_organization : Option String
  pub pilot_state : Int64
  pub is_connected : Bool

pub record Livery : Type 0 where
  pub id : String
  pub aircraft_id : String
  pub aircraft_name : String
  pub livery_name : String

-- trimmed, in lower case, and every space replaced by an underscore
unfoldable pub normalize_session_name : (Char → Char) → String → String
unfolding trim_space to_lower replace_char
normalize_session_name lower name = replace_char " " "_" (to_lower lower (trim_space name))
