-- ===== src/Tests/Samples.antt =====
-- Flights and sessions for the tests.
use politburo.Prelude.{Char, String, true, false, none, some}
use politburo.Upstream
use politburo.Flights.{Flight, flight, nil}

abbrev pub same_char : Char → Char
same_char c = c

-- a flight with an id and the name of an aircraft
abbrev pub sample : String → String → Flight
sample id aircraft =
    flight
      (record {
        flight_id = id;
        user_id = "u1";
        aircraft_id = "a1";
        livery_id = "l1";
        username = some "Ann";
        virtual_organization = none;
        callsign = "speedbird";
        latitude = 0;
        longitude = 0;
        altitude = 31000;
        speed = 420;
        vertical_speed = 0;
        track = 0;
        heading = 0;
        last_report = 1;
        pilot_state = 0;
        is_connected = true;
        aircraft_name = aircraft;
        livery_name = "";
        session_id = "s1";
        normalized_name = "training_server";
        normalized = record {
          speed = "420 kts";
          vertical_speed = "0.0 ft/min";
          pilot_state = "active";
          is_connected = "connected";
        };
        path_sync = some (record { fpl_sync_required = false });
      })
      nil

abbrev pub session_of : String → String → Upstream.Session
session_of id name = record {
  id = id;
  name = name;
  world_type = 1;
  type = 0;
  minimum_grade_level = 1;
  user_count = 10;
  minimum_app_version = "";
  maximum_app_version = none;
  max_users = 1500;
  normalized_name = "";
  timestamp = 0;
}

abbrev pub training : Upstream.Session
training = session_of "s1" "training server"

abbrev pub expert : Upstream.Session
expert = session_of "s2" "expert server"

abbrev pub upstream_flight : String → Upstream.Flight
upstream_flight id = record {
  username = some "Ann";
  callsign = "speedbird";
  latitude = 0;
  longitude = 0;
  altitude = 31000;
  speed = 420;
  vertical_speed = 0;
  track = 0;
  heading = 0;
  last_report = "";
  flight_id = id;
  user_id = "u1";
  aircraft_id = "a1";
  livery_id = "l1";
  virtual_organization = none;
  pilot_state = 0;
  is_connected = true;
}

abbrev pub upstream_livery : String → Upstream.Livery
upstream_livery id = record {
  id = id;
  aircraft_id = "a1";
  aircraft_name = "A320";
  livery_name = "House";
}
