-- ===== src/Jobs/Flights/Steps.antt =====
-- What every step of a refresh of the flights keeps, the refresh keeps.
use politburo.Prelude.{
  String, Option, none, some, List, [], ◌∷◌, ◌==◌, ◌||◌, Map, get, Bool-cases, inl, inr,
}
use politburo.Upstream
use politburo.Upstream.{Time, Session}
use politburo.GameSessions
use politburo.GameSessions.{Livery}
use politburo.Flights.{Flight, flight_id, Snapshot, game_active_flight_ttl}
use politburo.Flights.Mapper.{Numerics, index_from, upsert_flights, next_history}
use politburo.Cache.{Shape, Reply, hit, miss, broken, Store}
use politburo.Cache.Keys.{key_active_flights, key_flight_history, key_livery}
use politburo.Jobs.Flights.{
  FlightsClient, note_livery, lookup_noted, lookup_livery, load_history, cache_history,
  cache_histories, map_flights, write_flights, result_of, after_fetch, refresh_session,
  refresh_sessions, refresh_active, run,
}

module _ {W : Type 0} (store : Store W) (client : FlightsClient W) (go : Numerics)
    (now : Time) where
  -- A property of the state that every step of the job keeps.
  pub record IsKept (P : W → Type 0) : Type 0 where
    pub reads : (t : Shape) (k : String) (w : W) → P w → P (store.get_json t k w).1
    pub fetches : (id : String) (w : W) → P w → P (client id w).1
    pub flights :
        (name : String) (s : Snapshot) (w : W)
        → P w
        → P
            (store.set_json Shape.flights_shape
              (key_active_flights name)
              s
              game_active_flight_ttl
              w).1
    pub histories :
        (id : String) (old : List Flight) (prior : Flight) (w : W)
        → P w
        → P
            (store.set_json Shape.history_shape
              (key_flight_history id)
              (record { result = next_history old prior })
              game_active_flight_ttl
              w).1

  -- what the reads keep
  module _ {P : W → Type 0}
      (reads : (t : Shape) (k : String) (w : W) → P w → P (store.get_json t k w).1) where
    note_livery-keeps :
        (id : String) (liveries : Map Livery) (p : Reply Livery × W)
        → P p.1
        → P (note_livery store id liveries p).2
    note_livery-keeps id liveries (hit l, w) h = h
    note_livery-keeps id liveries (miss, w) h = h
    note_livery-keeps id liveries (broken, w) h = h

    lookup_noted-keeps :
        (id : String) (liveries : Map Livery) (o : Option Livery) (w : W)
        → P w
        → P (lookup_noted store id liveries o w).2
    lookup_noted-keeps id liveries (some l) w h = h
    lookup_noted-keeps id liveries none w h =
        note_livery-keeps id liveries (store.get_json Shape.livery_shape (key_livery id) w)
          (reads Shape.livery_shape (key_livery id) w h)

    lookup_livery-keeps :
        (id : String) (liveries : Map Livery) (w : W)
        → P w
        → P (lookup_livery store id liveries w).2
    unfolding lookup_livery
    lookup_livery-keeps id liveries w h = elim (Bool-cases (id == "")) [
      | inl blank ↦ rw blank h
      | inr given ↦ rw given (lookup_noted-keeps id liveries (get id liveries) w h)
    ]

    pub map_flights-keeps :
        (index : Map Flight) (session : Session) (upstream : List Upstream.Flight)
        (liveries : Map Livery) (w : W)
        → P w
        → P (map_flights store client go now index session upstream liveries w).2
    unfolding map_flights
    map_flights-keeps index session [] liveries w h = h
    map_flights-keeps index session (item ∷ upstream) liveries w h =
        map_flights-keeps index session upstream (lookup_livery store item.livery_id liveries w).1
          (lookup_livery store item.livery_id liveries w).2
          (lookup_livery-keeps item.livery_id liveries w h)

  module _ {P : W → Type 0} (kept : IsKept P) where
    cache_history-keeps :
        (o : Option Flight) (id : String) (w : W) → P w → P (cache_history store o id w)
    cache_history-keeps none id w h = h
    cache_history-keeps (some prior) id w h =
        kept.histories id (load_history store id prior w).0 prior (load_history store id prior w).1
          (kept.reads Shape.history_shape (key_flight_history id) w h)

    cache_histories-keeps :
        (index : Map Flight) (current : List Flight) (w : W)
        → P w
        → P (cache_histories store index current w)
    unfolding cache_histories
    cache_histories-keeps index [] w h = h
    cache_histories-keeps index (f ∷ current) w h =
        cache_histories-keeps index current _ (elim (Bool-cases (flight_id f == "")) [
          | inl blank ↦ rw blank h
          | inr given ↦ rw given (cache_history-keeps (get (flight_id f) index) (flight_id f) w h)
        ])

    write_flights-keeps :
        (existing : List Flight) (session : Session) (m : List Flight × Map Livery × W)
        → P m.2
        → P (write_flights store client go now existing session m).2
    write_flights-keeps existing session (mapped, liveries, w) h =
        kept.flights session.normalized_name _ _
          (cache_histories-keeps (index_from [] existing) (upsert_flights existing mapped) w h)

    after_fetch-keeps :
        (session : Session) (liveries : Map Livery) (fetched : Option (List Upstream.Flight) × W)
        → P fetched.1
        → P (after_fetch store client go now session liveries fetched).2
    after_fetch-keeps session liveries (none, w) h = h
    after_fetch-keeps session liveries (some upstream, w) h =
        let read =
          store.get_json Shape.flights_shape (key_active_flights session.normalized_name) w in
        write_flights-keeps (result_of read.0) session
          (map_flights store client go now (index_from [] (result_of read.0)) session upstream
            liveries read.1)
          (map_flights-keeps kept.reads (index_from [] (result_of read.0)) session upstream liveries
            read.1
            (kept.reads Shape.flights_shape (key_active_flights session.normalized_name) w h))

    refresh_session-keeps :
        (session : Session) (liveries : Map Livery) (w : W)
        → P w
        → P (refresh_session store client go now session liveries w).2
    unfolding refresh_session
    refresh_session-keeps session liveries w h =
        after_fetch-keeps session liveries (client session.id w) (kept.fetches session.id w h)

    refresh_sessions-keeps :
        (sessions : List Session) (liveries : Map Livery) (w : W)
        → P w
        → P (refresh_sessions store client go now sessions liveries w)
    unfolding refresh_sessions
    refresh_sessions-keeps [] liveries w h = h
    refresh_sessions-keeps (session ∷ sessions) liveries w h =
        refresh_sessions-keeps sessions _ _
          (elim (Bool-cases (session.id == "" || session.normalized_name == "")) [
            | inl skip ↦ rw skip h
            | inr full ↦ rw full (refresh_session-keeps session liveries w h)
          ])

    refresh_active-keeps :
        (p : Reply GameSessions.Snapshot × W) → P p.1 → P (refresh_active store client go now p).1
    refresh_active-keeps (hit s, w) h = refresh_sessions-keeps (GameSessions.result s) [] w h
    refresh_active-keeps (miss, w) h = h
    refresh_active-keeps (broken, w) h = h

    pub run-keeps : (w : W) → P w → P (run store client go now w).1
    unfolding run
    run-keeps w h = refresh_active-keeps _ (kept.reads _ _ w h)
