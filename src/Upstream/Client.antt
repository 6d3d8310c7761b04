-- ===== src/Upstream/Client.antt =====
-- internal/infiniteflight/client.go: the three calls of the API. What the generated client of
-- internal/api/generated/infiniteflight returns is an argument: the package is built, and not kept.
use politburo.Prelude.{ℕ, String, Bool, Option, none, some, List, map, not, eqb, if◌then◌else◌}
use politburo.Ints.{Int64}
use politburo.Upstream.{Float64, Session, Flight, Livery}

-- the fields that the code reads of the items of an answer
pub record SessionItem : Type 0 where
  pub id : String
  pub name : String
  pub world_type : Int64
  pub type : Int64
  pub minimum_grade_level : Int64
  pub user_count : Int64
  pub minimum_app_version : String
  pub maximum_app_version : Option String
  pub max_users : Int64

pub record FlightItem : Type 0 where
  pub username : Option String
  pub callsign : String
  pub latitude : Float64
  pub longitude : Float64
  pub altitude : Float64
  pub speed : Float64
  pub vertical_speed : Float64
  pub track : Float64
  pub heading : Option Float64
  pub last_report : String
  pub flight_id : String
  pub user_id : String
  pub aircraft_id : String
  pub livery_id : String
  pub virtual_organization : Option String
  pub pilot_state : Int64
  pub is_connected : Bool

pub record LiveryItem : Type 0 where
  pub id : String
  pub aircraft_id : String
  pub aircraft_name : String
  pub livery_name : String

-- `JSON200`
pub record Answer (A : Type 0) : Type 0 where
  pub error_code : Int64
  pub result : List A

-- a response of the generated client; `json_default` is the `ErrorCode` of `JSONDefault`
pub record ApiResponse (A : Type 0) : Type 0 where
  pub status : ℕ
  pub json_200 : Option (Answer A)
  pub json_default : Option Int64

-- The errors of a call: the request failed, an error object, no body that is known, or an answer
-- with an error code.
pub data ApiError : Type 0 where
  request_failed : ApiError
  refused : ℕ → Int64 → ApiError
  unexpected : ℕ → ApiError
  error_code : Int64 → ApiError

pub data Fetched (B : Type 0) : Type 0 where
  fetched : List B → Fetched B
  failed : ApiError → Fetched B

-- the tests that the three calls make of a response
module _ {A B : Type 0} (convert : A → B) where
  abbrev pub without_200 : ℕ → Option Int64 → Fetched B
  without_200 status none = failed (ApiError.unexpected status)
  without_200 status (some code) = failed (ApiError.refused status code)

  abbrev pub with_200 : ApiResponse A → Option (Answer A) → Fetched B
  with_200 r none = without_200 r.status r.json_default
  with_200 r (some answer) =
      if not (eqb answer.error_code 0)
      then failed (ApiError.error_code answer.error_code)
      else fetched (map convert answer.result)

  -- `none` is an error of the request
  unfoldable pub of_response : Option (ApiResponse A) → Fetched B
  of_response none = failed ApiError.request_failed
  of_response (some r) = with_200 r r.json_200

abbrev pub session_of : SessionItem → Session
session_of item = record {
  id = item.id;
  name = item.name;
  world_type = item.world_type;
  type = item.type;
  minimum_grade_level = item.minimum_grade_level;
  user_count = item.user_count;
  minimum_app_version = item.minimum_app_version;
  maximum_app_version = item.maximum_app_version;
  max_users = item.max_users;
  normalized_name = "";
  timestamp = 0;
}

-- `heading := 0.0`
abbrev pub heading_of : Option Float64 → Float64
heading_of none = 0
heading_of (some heading) = heading

abbrev pub flight_of : FlightItem → Flight
flight_of item = record {
  username = item.username;
  callsign = item.callsign;
  latitude = item.latitude;
  longitude = item.longitude;
  altitude = item.altitude;
  speed = item.speed;
  vertical_speed = item.vertical_speed;
  track = item.track;
  heading = heading_of item.heading;
  last_report = item.last_report;
  flight_id = item.flight_id;
  user_id = item.user_id;
  aircraft_id = item.aircraft_id;
  livery_id = item.livery_id;
  virtual_organization = item.virtual_organization;
  pilot_state = item.pilot_state;
  is_connected = item.is_connected;
}

abbrev pub livery_of : LiveryItem → Livery
livery_of item = record {
  id = item.id;
  aircraft_id = item.aircraft_id;
  aircraft_name = item.aircraft_name;
  livery_name = item.livery_name;
}

-- the generated client
pub record Generated (W : Type 0) : Type 0 where
  pub get_sessions : W → Option (ApiResponse SessionItem) × W
  pub get_session_flights : String → W → Option (ApiResponse FlightItem) × W
  pub get_aircraft_liveries : W → Option (ApiResponse LiveryItem) × W

module _ {W : Type 0} (generated : Generated W) where
  unfoldable pub get_sessions : W → Fetched Session × W
  unfolding of_response
  get_sessions w = let (r, w') = generated.get_sessions w in (of_response session_of r, w')

  unfoldable pub get_session_flights : String → W → Fetched Flight × W
  unfolding of_response
  get_session_flights id w =
      let (r, w') = generated.get_session_flights id w in (of_response flight_of r, w')

  unfoldable pub get_aircraft_liveries : W → Fetched Livery × W
  unfolding of_response
  get_aircraft_liveries w =
      let (r, w') = generated.get_aircraft_liveries w in (of_response livery_of r, w')

-- what the jobs see of a call: they do not tell the errors apart
abbrev pub as_option : {B : Type 0} → Fetched B → Option (List B)
as_option (fetched items) = some items
as_option (failed e) = none

abbrev pub as_call : {W B : Type 0} → Fetched B × W → Option (List B) × W
as_call (f, w) = (as_option f, w)
