-- ===== src/Tests/Refreshes.antt =====
-- The jobs, and the list that they feed, over the Redis in memory.
use politburo.Prelude.{String, none, some, List, [], ◌∷◌, get, put, ◌≡◌, ◌≢◌, refl}
use mathlib.Core.Option
use politburo.Keyed.{or_first, find_last}
use politburo.Upstream
use politburo.Flights.{Flight}
use politburo.Flights.Mapper.{Numerics, map_flight, upsert_flights}
use politburo.Cache.{Shape}
use politburo.Cache.Keys.{key_session_names, key_active_flights, key_flight_history}
use politburo.Cache.Keys.Laws.{Entry, key_of, key_of-injective}
use politburo.Cache.Redis.{State, set_json}
use politburo.Jobs.{done}
use politburo.Jobs.Sessions
use politburo.Jobs.Sessions.{SessionsClient, prepare_current_sessions}
use politburo.Jobs.Sessions.Stored as SessionsStored
use politburo.Jobs.Liveries
use politburo.Jobs.Liveries.{LiveriesClient, livery_of}
use politburo.Jobs.Liveries.Kept
use politburo.Jobs.Liveries.Kept.{livery_id}
use politburo.Jobs.Flights
use politburo.Jobs.Flights.{FlightsClient}
use politburo.Jobs.Flights.Histories.{Recorded}
use politburo.Jobs.Flights.Recorded.{Existing, prior_in, refresh_session-Recorded}
use politburo.Jobs.Flights.Kept as FlightsKept
use politburo.Jobs.Flights.Stored as FlightsStored
use politburo.Tests.Memory.{Server, cache, cache-Contract, empty_cache, holds-empty_cache}
use politburo.Tests.Samples.{training, expert, upstream_flight, upstream_livery, same_char}

abbrev sessions_client : SessionsClient (State Server)
sessions_client w = (some (training ∷ expert ∷ training ∷ []), w)

abbrev after_sessions : State Server
after_sessions = (Sessions.run cache sessions_client same_char 5 empty_cache).1

sessions_done : Sessions.run cache sessions_client same_char 5 empty_cache ≡ (done, after_sessions)
unfolding Sessions.run set_json
sessions_done = refl

run-Stored_example :
    (upstream : List Upstream.Session) × ((sessions_client empty_cache).0 ≡ some upstream)
    × SessionsStored.Stored cache cache-Contract same_char 5
        (sessions_client empty_cache).1
        (prepare_current_sessions same_char 5 upstream)
        after_sessions
run-Stored_example =
    SessionsStored.run-Stored cache cache-Contract same_char 5 sessions_client empty_cache
      after_sessions sessions_done

abbrev liveries_client : LiveriesClient (State Server)
liveries_client w = (some (upstream_livery "l1" ∷ upstream_livery "l2" ∷ []), w)

abbrev after_liveries : State Server
after_liveries = (Liveries.run cache liveries_client empty_cache).1

liveries_done : Liveries.run cache liveries_client empty_cache ≡ (done, after_liveries)
unfolding Liveries.run Liveries.write_all set_json
liveries_done = refl

held-run_example :
    (upstream : List Upstream.Livery) × ((liveries_client empty_cache).0 ≡ some upstream)
    × (Kept.held cache cache-Contract "l1" after_liveries
        ≡ or_first
            (Option.map livery_of (find_last livery_id "l1" upstream))
            (Kept.held cache cache-Contract "l1" (liveries_client empty_cache).1))
held-run_example =
    Kept.held-run cache cache-Contract liveries_client "l1" empty_cache after_liveries liveries_done

abbrev pub flights_client : FlightsClient (State Server)
flights_client id w =
    (some (upstream_flight "f1" ∷ upstream_flight "f2" ∷ upstream_flight "f1" ∷ []), w)

-- arithmetic that rounds nothing
abbrev pub whole : Numerics
whole = record {
  round = λ x. x;
  times = λ x n. x;
  over = λ x n. x;
  to_int = λ x. x;
  format_tenths = λ x. "0.0";
  parse_time = λ s. none;
}

abbrev pub server : Upstream.Session
server = record training { normalized_name = "training_server" }

abbrev pub after_flights : State Server
after_flights = (Flights.refresh_session cache flights_client whole 5 server [] empty_cache).2

pub flights_done : Flights.refresh_session cache flights_client whole 5 server [] empty_cache ≡ (
  some 2,
  (Flights.refresh_session cache flights_client whole 5 server [] empty_cache).1,
  after_flights,
)
unfolding Flights.refresh_session set_json Flights.map_flights upsert_flights get put map_flight
flights_done = refl

refresh_session-Stored_example :
    (upstream : List Upstream.Flight) × ((flights_client "s1" empty_cache).0 ≡ some upstream)
    × FlightsStored.Stored cache cache-Contract flights_client whole 5 "training_server" upstream 2
        after_flights
refresh_session-Stored_example =
    FlightsStored.refresh_session-Stored cache cache-Contract flights_client whole 5 server []
      empty_cache 2 (Flights.refresh_session cache flights_client whole 5 server [] empty_cache).1
      after_flights flights_done

empty_cache-AreBounded :
    FlightsKept.AreBounded cache flights_client whole 5 cache-Contract empty_cache
empty_cache-AreBounded id = rw holds-empty_cache tt

run-AreBounded_example :
    FlightsKept.AreBounded cache flights_client whole 5 cache-Contract
      (Flights.run cache flights_client whole 5 empty_cache).1
run-AreBounded_example =
    FlightsKept.run-AreBounded cache flights_client whole 5 cache-Contract empty_cache (λ id w h. h)
      empty_cache-AreBounded

no_flights : (name : String) → key_session_names ≢ key_active_flights name
unfolding key_of
no_flights name e = apart (key_of-injective Entry.session_names (Entry.active_flights name) e)
  where
    apart : Entry.session_names ≡ Entry.active_flights name → ⊥
    apart h = cc

no_history : (id : String) → key_session_names ≢ key_flight_history id
unfolding key_of
no_history id e = apart (key_of-injective Entry.session_names (Entry.flight_history id) e)
  where
    apart : Entry.session_names ≡ Entry.flight_history id → ⊥
    apart h = cc

run-holds_example :
    cache-Contract.holds Shape.names_shape key_session_names
      (Flights.run cache flights_client whole 5 after_sessions).1
    ≡ cache-Contract.holds Shape.names_shape key_session_names after_sessions
run-holds_example =
    FlightsKept.run-holds cache flights_client whole 5 cache-Contract Shape.names_shape
      key_session_names after_sessions (λ id w. refl) no_flights no_history

-- a second refresh finds the flights of the first
refresh_session-Recorded_example :
    (existing : List Flight) × Existing cache cache-Contract "training_server" after_flights
      existing
    × Recorded cache cache-Contract "f1"
        (prior_in cache cache-Contract existing
          (upstream_flight "f1" ∷ upstream_flight "f2" ∷ upstream_flight "f1" ∷ [])
          "f1")
        after_flights
        (Flights.refresh_session cache flights_client whole 65 server [] after_flights).2
refresh_session-Recorded_example =
    refresh_session-Recorded cache cache-Contract flights_client whole 65 server [] after_flights
      (upstream_flight "f1" ∷ upstream_flight "f2" ∷ upstream_flight "f1" ∷ []) "f1" refl
      (λ t k. refl)
