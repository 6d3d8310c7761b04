-- ===== src/Jobs/Flights.antt =====
-- internal/jobs/flights/job.go, without its log lines.
pub mod Steps
pub mod Kept
pub mod Stored
pub mod Histories
pub mod Recorded
use politburo.Prelude.{
  ℕ, String, Bool, true, false, Option, none, some, List, [], ◌∷◌, ◌==◌, ◌||◌, length, Map, get,
  put, if◌then◌else◌,
}
use politburo.Upstream
use politburo.Upstream.{Time, Session}
use politburo.GameSessions
use politburo.GameSessions.{Livery}
use politburo.Flights.{
  Flight, flight_id, history, to_list, Snapshot, HistorySnapshot, game_active_flight_ttl,
}
use politburo.Flights.Mapper.{Numerics, map_flight, index_from, upsert_flights, next_history}
use politburo.Cache.{Shape, Reply, hit, miss, broken, Store}
use politburo.Cache.Keys.{key_active_sessions, key_active_flights, key_flight_history, key_livery}
use politburo.Jobs.{Outcome, done}

-- `GetSessionFlights`; an error is `none`
abbrev pub FlightsClient : Type 0 → Type 0
FlightsClient W = String → W → Option (List Upstream.Flight) × W

-- what stands in the map `liveries` for an id without a livery
abbrev pub no_livery : Livery
no_livery = record { id = ""; aircraft_id = ""; aircraft_name = ""; livery_name = "" }

abbrev pub result_of : Reply Snapshot → List Flight
result_of (hit s) = s.result
result_of miss = []
result_of broken = []

-- Without a snapshot the history is the one of the flight itself; a nil slice is an empty list.
abbrev pub history_of : Reply HistorySnapshot → Flight → List Flight
history_of (hit s) prior = s.result
history_of miss prior = to_list (history prior)
history_of broken prior = to_list (history prior)

module _ {W : Type 0} (store : Store W) where
  abbrev pub note_livery : String → Map Livery → Reply Livery × W → Option Livery × Map Livery × W
  note_livery id liveries (hit livery, w) = (some livery, put id livery liveries, w)
  note_livery id liveries (miss, w) = (none, put id no_livery liveries, w)
  note_livery id liveries (broken, w) = (none, put id no_livery liveries, w)

  abbrev pub lookup_noted : String → Map Livery → Option Livery → W → Option Livery × Map Livery × W
  lookup_noted id liveries (some cached) w =
      (if cached.id == "" then none else some cached, liveries, w)
  lookup_noted id liveries none w =
      note_livery id liveries (store.get_json Shape.livery_shape (key_livery id) w)

  unfoldable pub lookup_livery : String → Map Livery → W → Option Livery × Map Livery × W
  lookup_livery id liveries w =
      if id == "" then (none, liveries, w) else lookup_noted id liveries (get id liveries) w

  abbrev pub load_history : String → Flight → W → List Flight × W
  load_history id prior w =
      let (reply, w') = store.get_json Shape.history_shape (key_flight_history id) w in
      (history_of reply prior, w')

  abbrev pub cache_history : Option Flight → String → W → W
  cache_history none id w = w
  cache_history (some prior) id w =
      let (old, w') = load_history id prior w in
      (store.set_json Shape.history_shape (key_flight_history id)
        (record { result = next_history old prior }) game_active_flight_ttl w').1

  unfoldable pub cache_histories : Map Flight → List Flight → W → W
  cache_histories existing_by_id [] w = w
  cache_histories existing_by_id (f ∷ current) w =
      let id = flight_id f in
      cache_histories existing_by_id current
        (if id == "" then w else cache_history (get id existing_by_id) id w)

  module _ (client : FlightsClient W) (go : Numerics) (refreshed_at : Time) where
    -- the loop that fills `mapped`
    unfoldable pub map_flights :
        Map Flight → Session → List Upstream.Flight → Map Livery → W → List Flight × Map Livery × W
    map_flights existing_by_id session [] liveries w = ([], liveries, w)
    map_flights existing_by_id session (item ∷ upstream) liveries w =
        let (livery, noted, w') = lookup_livery item.livery_id liveries w in
        let (mapped, all, w'') = map_flights existing_by_id session upstream noted w' in
        (
          map_flight go item session livery (get item.flight_id existing_by_id) refreshed_at
              ∷ mapped,
          all,
          w'',
        )

    -- from the mapped flights on
    abbrev pub write_flights :
        List Flight → Session → List Flight × Map Livery × W → Option ℕ × Map Livery × W
    write_flights existing session (mapped, liveries, w) =
        let result = upsert_flights existing mapped in
        let w' = cache_histories (index_from [] existing) result w in
        let (ok, w'') =
          store.set_json Shape.flights_shape (key_active_flights session.normalized_name)
            (record { result = result; last_cached = refreshed_at }) game_active_flight_ttl w' in
        (if ok then some (length result) else none, liveries, w'')

    abbrev pub after_fetch :
        Session → Map Livery → Option (List Upstream.Flight) × W → Option ℕ × Map Livery × W
    after_fetch session liveries (none, w) = (none, liveries, w)
    after_fetch session liveries (some upstream, w) =
        let (reply, w') =
          store.get_json Shape.flights_shape (key_active_flights session.normalized_name) w in
        write_flights (result_of reply) session
          (map_flights (index_from [] (result_of reply)) session upstream liveries w')

    -- `refreshSession`: the number of flights, or `none` for an error
    unfoldable pub refresh_session : Session → Map Livery → W → Option ℕ × Map Livery × W
    refresh_session session liveries w = after_fetch session liveries (client session.id w)

    -- the loop over the sessions; the error of a session is logged, and the next one is refreshed
    unfoldable pub refresh_sessions : List Session → Map Livery → W → W
    refresh_sessions [] liveries w = w
    refresh_sessions (session ∷ sessions) liveries w =
        let (count, noted, w') = refresh_session session liveries w in
        let skip = session.id == "" || session.normalized_name == "" in
        refresh_sessions sessions (if skip then liveries else noted) (if skip then w else w')

    abbrev pub refresh_active : Reply GameSessions.Snapshot × W → Outcome × W
    refresh_active (hit s, w) = (done, refresh_sessions (GameSessions.result s) [] w)
    refresh_active (miss, w) = (done, w)
    refresh_active (broken, w) = (done, w)

    -- `Run`
    unfoldable pub run : W → Outcome × W
    run w = refresh_active (store.get_json Shape.sessions_shape key_active_sessions w)
