-- ===== src/Flights/Mapper.antt =====
-- internal/game/flights/mapper.go
use politburo.Prelude.{
  ℕ, String, Bool, false, Option, none, some, List, [], ◌∷◌, ◌++◌, ◌==◌, length, Map, get, put,
  if◌then◌else◌,
}
use Prim.Native.String
use politburo.Ints.{Int64, format_int}
use politburo.Upstream
use politburo.Upstream.{Float64, Time}
use politburo.Flights.{Flight, flight, nil, Fields, fields, flight_id, without_history, max_history}
use politburo.GameSessions.{Livery}
use politburo.Recent.{keep_last}
use politburo.Keyed.{place, note_place}
use politburo.Flights.PilotState.{name_for_pilot_state}

-- What the mapper takes from `math`, `fmt` and `time`: the operations on float64, the verb `%.1f`
-- and `time.Parse` at the layout of the reports.
pub record Numerics : Type 0 where
  pub round : Float64 → Float64
  pub times : Float64 → ℕ → Float64
  pub over : Float64 → ℕ → Float64
  pub to_int : Float64 → Int64
  pub format_tenths : Float64 → String
  pub parse_time : String → Option Time

abbrev is_blank : String → Bool
is_blank s = s == ""

abbrev or_else : Time → Option Time → Time
or_else fallback none = fallback
or_else fallback (some t) = t

unfoldable pub parse_last_report : Numerics → String → Time → Time
parse_last_report go raw fallback = or_else fallback (go.parse_time raw)

-- the names of the livery, or else those of the flight in the cache
abbrev aircraft_name_of : Option Livery → String
aircraft_name_of none = ""
aircraft_name_of (some livery) = livery.aircraft_name

abbrev livery_name_of : Option Livery → String
livery_name_of none = ""
livery_name_of (some livery) = livery.livery_name

abbrev kept_name : (Fields → String) → String → Option Flight → String
kept_name name own none = own
kept_name name own (some existing) = if is_blank own then name (fields existing) else own

unfoldable pub map_flight :
    Numerics → Upstream.Flight → Upstream.Session → Option Livery → Option Flight → Time → Flight
unfolding parse_last_report
map_flight go upstream session livery existing fallback_report =
    let speed = go.to_int (go.round upstream.speed) in
    let vertical_speed = go.over (go.round (go.times upstream.vertical_speed 10)) 10 in
    flight
      (record {
        flight_id = upstream.flight_id;
        user_id = upstream.user_id;
        aircraft_id = upstream.aircraft_id;
        livery_id = upstream.livery_id;
        username = upstream.username;
        virtual_organization = upstream.virtual_organization;
        callsign = upstream.callsign;
        latitude = go.over (go.round (go.times upstream.latitude 10000)) 10000;
        longitude = go.over (go.round (go.times upstream.longitude 10000)) 10000;
        altitude = go.to_int (go.round upstream.altitude);
        speed = speed;
        vertical_speed = vertical_speed;
        track = go.over (go.round (go.times upstream.track 10)) 10;
        heading = go.over (go.round (go.times upstream.heading 10)) 10;
        last_report = parse_last_report go upstream.last_report fallback_report;
        pilot_state = upstream.pilot_state;
        is_connected = upstream.is_connected;
        aircraft_name = kept_name (λ f. f.aircraft_name) (aircraft_name_of livery) existing;
        livery_name = kept_name (λ f. f.livery_name) (livery_name_of livery) existing;
        session_id = session.id;
        normalized_name = session.normalized_name;
        normalized = record {
          speed = String.◌++◌ (format_int speed) " kts";
          vertical_speed = String.◌++◌ (go.format_tenths vertical_speed) " ft/min";
          pilot_state = name_for_pilot_state upstream.pilot_state;
          is_connected = if upstream.is_connected then "connected" else "disconnected";
        };
        path_sync = some (record { fpl_sync_required = false });
      })
      nil

unfoldable pub merge_names : Flight → Flight → Flight
merge_names (flight f h) prior =
    flight
      (record f {
        aircraft_name =
            if is_blank f.aircraft_name then (fields prior).aircraft_name else f.aircraft_name;
        livery_name = if is_blank f.livery_name then (fields prior).livery_name else f.livery_name;
      })
      h

-- the loop that fills `index`
unfoldable pub index_from : Map Flight → List Flight → Map Flight
index_from index [] = index
index_from index (f ∷ existing) = index_from (put (flight_id f) f index) existing

abbrev pub merged : Option Flight → Flight → Flight
merged none current = without_history current
merged (some prior) current = without_history (merge_names current prior)

-- the loop over `mapped`; `seen` holds the place of each flight in `result`
unfoldable pub upsert_from : Map Flight → Map ℕ → List Flight → List Flight → List Flight
unfolding merge_names
upsert_from index seen result [] = result
upsert_from index seen result (current ∷ mapped) =
    let id = flight_id current in
    let previous = get id seen in
    upsert_from index (note_place previous id (length result) seen)
      (place previous (merged (get id index) current) result) mapped

unfoldable pub upsert_flights : List Flight → List Flight → List Flight
unfolding index_from upsert_from
upsert_flights existing mapped = upsert_from (index_from [] existing) [] [] mapped

abbrev pub historical : Flight → Flight
historical (flight f h) = flight (record f { path_sync = none }) nil

unfoldable pub next_history : List Flight → Flight → List Flight
next_history existing prior = keep_last max_history (existing ++ historical prior ∷ [])
