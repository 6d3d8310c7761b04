-- ===== src/Flights.antt =====
-- internal/game/flights/cache.go: the flights that are cached, one snapshot for each game server.
pub mod PilotState
pub mod Filter
pub mod Page
pub mod Mapper
pub mod Upsert
pub mod Paging
pub mod Histories
pub mod Matching
pub mod Token
use politburo.Prelude.{ℕ, ◌*◌, String, Bool, Option, none, some, List, [], ◌∷◌}
use politburo.Ints.{Int64}
use politburo.Upstream.{Float64, Time}

-- `RefreshInterval / time.Minute`
abbrev pub refresh_interval_minutes : Int64
refresh_interval_minutes = 1

abbrev pub max_history : ℕ
max_history = 25

abbrev pub max_flights_per_request : ℕ
max_flights_per_request = 5000

abbrev pub default_page_length : Int64
default_page_length = 50

abbrev pub default_page_number : Int64
default_page_number = 1

-- three days, in nanoseconds
abbrev pub game_active_flight_ttl : ℕ
game_active_flight_ttl = 3 * 24 * 3600 * 1000000000

pub record PathSync : Type 0 where
  pub fpl_sync_required : Bool

pub record Normalized : Type 0 where
  pub speed : String
  pub vertical_speed : String
  pub pilot_state : String
  pub is_connected : String

-- the fields of `Flight` but the last
pub record Fields : Type 0 where
  pub flight_id : String
  pub user_id : String
  pub aircraft_id : String
  pub livery_id : String
  pub username : Option String
  pub virtual_organization : Option String
  pub callsign : String
  pub latitude : Float64
  pub longitude : Float64
  pub altitude : Int64
  pub speed : Int64
  pub vertical_speed : Float64
  pub track : Float64
  pub heading : Float64
  pub last_report : Time
  pub pilot_state : Int64
  pub is_connected : Bool
  pub aircraft_name : String
  pub livery_name : String
  pub session_id : String
  pub normalized_name : String
  pub normalized : Normalized
  pub path_sync : Option PathSync

-- `Flight` and its last field, `History []Flight`. A nil slice and an empty one are one value: the
-- code iterates over both alike.
mutual
  pub data Flight : Type 0 where
    flight : Fields → History → Flight

  pub data History : Type 0 where
    nil : History
    cons : Flight → History → History

abbrev pub fields : Flight → Fields
fields (flight f h) = f

abbrev pub history : Flight → History
history (flight f h) = h

abbrev pub flight_id : Flight → String
flight_id (flight f h) = f.flight_id

abbrev pub to_list : History → List Flight
to_list nil = []
to_list (cons f h) = f ∷ to_list h

-- `flight.History = nil`
abbrev pub without_history : Flight → Flight
without_history (flight f h) = flight f nil

pub record Snapshot : Type 0 where
  pub result : List Flight
  pub last_cached : Time

pub record HistorySnapshot : Type 0 where
  pub result : List Flight
