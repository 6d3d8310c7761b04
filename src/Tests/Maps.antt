-- ===== src/Tests/Maps.antt =====
-- The map after a refresh of its flights.
use mathlib.Core.List.{Memᴰ}
use politburo.Prelude.{some, List, [], ◌∷◌, ◌≡◌, map, get, put, refl}
use politburo.Strings.{
  trim_left, trim_right, trim_space, is_space, has_prefix, contains, to_lower, map_chars,
}
use politburo.Upstream
use politburo.Flights.{Flight, flight_id, Snapshot}
use politburo.Flights.Filter.{username, contains_fold}
use politburo.Flights.Mapper.{
  upsert_flights, map_flight, index_from, merge_names, next_history, parse_last_report, upsert_from,
}
use politburo.Flights.PilotState.{name_for_pilot_state, parse_pilot_state_name}
use politburo.Ints.{digit, digit_from, digits, format_int}
use politburo.Recent.{keep_last}
use politburo.Flights.Token.{encode}
use politburo.Cache.Keys.{key_active_flights, key_flight_history, key_livery}
use politburo.Cache.Redis.{get_json, set_json}
use politburo.Jobs.Flights.{refresh_session, map_flights, cache_histories, lookup_livery}
use politburo.Jobs.Flights.Stored.{upstream_id}
use politburo.Http
use politburo.Api.Flights.{Body, TrimmedFlight, Query, markers_body}
use politburo.Api.Flights.Load.{select, passes, keep, read_snapshot, known_server, load_filtered}
use politburo.Api.Flights.Trimmed.{trimmed_flight, mark, get_trimmed_active_flights}
use politburo.Api.Flights.Detail.{get_active_flight}
use politburo.Api.Flights.Opened.{Opens}
use politburo.Api.Flights.Refreshed.{refresh_session-marker}
use politburo.Tests.Unary.{unary, unary-IsCipher, write_bytes}
use politburo.Tests.Memory.{cache, cache-Contract, empty_cache}
use politburo.Tests.Samples.{same_char}
use politburo.Tests.Refreshes.{flights_client, whole, server, after_flights, flights_done}
use politburo.Tests.Markers.{json, json-IsJson, secret, draw, draw-size, markers_of}

abbrev every_flight : Query
every_flight = record {
  server_id = "training_server";
  pilot_states = [];
  user_name = "";
  call_sign = "";
  page_number = 0;
  page_length = 0;
}

abbrev answer : Http.Body Body
answer =
    (get_trimmed_active_flights unary json secret draw [] cache same_char every_flight
      after_flights).0.body

has_markers : answer ≡ Http.Body.payload (markers_body (markers_of answer))
unfolding get_trimmed_active_flights load_filtered select known_server get_json refresh_session
    set_json key_active_flights cache_histories upsert_flights map_flights get put map_flight
    lookup_livery read_snapshot mark keep passes key_flight_history key_livery contains_fold
    username index_from merge_names next_history parse_last_report upsert_from name_for_pilot_state
    parse_pilot_state_name encode digit digit_from digits format_int keep_last contains has_prefix
    is_space map_chars to_lower trim_left trim_right trim_space write_bytes
has_markers = refl

abbrev first_of : List TrimmedFlight → TrimmedFlight
first_of [] = record { flight_id = ""; callsign = ""; latitude = 0; longitude = 0; heading = 0 }
first_of (m ∷ ms) = m

abbrev marker : TrimmedFlight
marker = first_of (markers_of answer).result

has_marker : Memᴰ marker (markers_of answer).result
unfolding get_trimmed_active_flights load_filtered select known_server get_json refresh_session
    set_json key_active_flights cache_histories upsert_flights map_flights get put map_flight
    lookup_livery read_snapshot mark keep passes key_flight_history key_livery contains_fold
    username index_from merge_names next_history parse_last_report upsert_from name_for_pilot_state
    parse_pilot_state_name encode digit digit_from digits format_int keep_last contains has_prefix
    is_space map_chars to_lower trim_left trim_right trim_space write_bytes
has_marker = Memᴰ.head refl

is_first : trim_space " bab" ≡ marker.flight_id
unfolding get_trimmed_active_flights load_filtered select known_server get_json refresh_session
    set_json key_active_flights cache_histories upsert_flights map_flights get put map_flight
    lookup_livery read_snapshot mark keep passes key_flight_history key_livery contains_fold
    username index_from merge_names next_history parse_last_report upsert_from name_for_pilot_state
    parse_pilot_state_name encode digit digit_from digits format_int keep_last contains has_prefix
    is_space map_chars to_lower trim_left trim_right trim_space write_bytes
is_first = refl

refresh_session-marker_example :
    (upstream : List Upstream.Flight) × (f : Flight) × (s : Snapshot) × ((flights_client "s1"
        empty_cache).0
      ≡ some upstream)
    × Memᴰ (flight_id f) (map upstream_id upstream)
    × (s.last_cached ≡ 5)
    × (marker ≡ trimmed_flight marker.flight_id f)
    × Opens unary json secret cache cache-Contract [] s f
        (get_active_flight [] unary json secret cache " bab" after_flights).0
refresh_session-marker_example =
    refresh_session-marker cache cache-Contract flights_client whole 5 server []
      (refresh_session cache flights_client whole 5 server [] empty_cache).1 empty_cache
      after_flights 2 unary unary-IsCipher json json-IsJson secret draw draw-size same_char []
      every_flight after_flights after_flights (markers_of answer) marker " bab" flights_done refl
      refl has_markers has_marker refl is_first
