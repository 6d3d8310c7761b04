-- ===== src/Api/Flights.antt =====
-- internal/transport/http/api/gameflights/handler.go: what its three handlers take and give.
pub mod Load
pub mod Filtered
pub mod Read
pub mod Sound
pub mod Active
pub mod Listed
pub mod Trimmed
pub mod Detail
pub mod Marked
pub mod Opened
pub mod Kept
pub mod Asked
pub mod Complete
pub mod Refreshed
use politburo.Prelude.{
  Char, String, Bool, true, false, Option, none, some, List, [], ◌∷◌, ◌++◌, ◌==◌, ◌&&◌, ◌||◌, not,
  map, length, eqb, if◌then◌else◌,
}
use politburo.Ints.{Int64, lt_int}
use politburo.Strings.{is_empty, trim_space}
use politburo.Flights.{Flight, fields, without_history, Snapshot, refresh_interval_minutes}
use politburo.Flights.PilotState.{pilot_state_names, parse_pilot_state_name}
use politburo.Flights.Filter.{username, contains_fold}
use politburo.Flights.Page.{Page, page, panic, paginate}
use politburo.Cache.{Shape, Reply, hit, miss, broken, Store}
use politburo.Cache.Keys.{key_session_names, key_active_flights}
use politburo.Http.{Headers, Response, write_json, write_error}
use politburo.Api.{Choice, Filter, Meta, Data}
use politburo.Upstream.{Float64}

pub record Query : Type 0 where
  pub server_id : String
  pub pilot_states : List String
  pub user_name : String
  pub call_sign : String
  pub page_number : Int64
  pub page_length : Int64

-- `loadedFlights`
pub record Loaded : Type 0 where
  pub result : List Flight
  pub selected : List String
  pub filters : List Filter
  pub meta : Meta

-- a flight on the map; its id is a marker token
pub record TrimmedFlight : Type 0 where
  pub flight_id : String
  pub callsign : String
  pub latitude : Float64
  pub longitude : Float64
  pub heading : Float64

-- the map of `GetTrimmedActiveFlights`, and that of `GetActiveFlight`
pub record Markers : Type 0 where
  pub available_filters : List Filter
  pub result : List TrimmedFlight
  pub count : Int64
  pub meta : Meta

pub record FlightDetail : Type 0 where
  pub result : Flight
  pub meta : Meta

-- what the three handlers write
pub data Body : Type 0 where
  list_body : Data Flight Flight → Body
  markers_body : Markers → Body
  detail_body : FlightDetail → Body

-- What the reads of a handler come to: a value, or the response that was written in its place.
pub data Loading (W A : Type 0) : Type 0 where
  loaded : A → W → Loading W A
  answered : Response Body × W → Loading W A

-- the end of a handler: a response, or a panic
pub data Served (W : Type 0) : Type 0 where
  served : Response Body × W → Served W
  panicked : W → Served W
