-- ===== src/Jobs/Flights/Stored.antt =====
-- What the cache holds after the refresh of a session's flights.
use politburo.Prelude.{
  ℕ, String, Option, none, some, List, [], ◌∷◌, map, length, Map, ◌≡◌, ◌∙◌, refl, sym, ap,
  Bool-cases, inl, inr, eq_of_some,
}
use politburo.Keyed.{IsDistinct}
use politburo.Keyed.Laws.{add_keys}
use politburo.Upstream
use politburo.Upstream.{Time, Session}
use politburo.GameSessions.{Livery}
use politburo.Flights.{Flight, flight_id, Snapshot, game_active_flight_ttl}
use politburo.Flights.Mapper.{Numerics, map_flight, index_from, upsert_flights}
use politburo.Flights.Upsert.{upsert_flights-IsDistinct, map-upsert_flights}
use politburo.Cache.{Shape, Store}
use politburo.Cache.Contract.{Contract}
use politburo.Cache.Keys.{key_active_flights}
use politburo.Jobs.Flights.{
  FlightsClient, lookup_livery, cache_histories, map_flights, write_flights, result_of, after_fetch,
  refresh_session,
}

abbrev pub upstream_id : Upstream.Flight → String
upstream_id item = item.flight_id

module _ {W : Type 0} (store : Store W) (c : Contract store) (client : FlightsClient W)
    (go : Numerics) (now : Time) where
  pub map-map_flights :
      (index : Map Flight) (session : Session) (upstream : List Upstream.Flight)
      (liveries : Map Livery) (w : W)
      → map flight_id (map_flights store client go now index session upstream liveries w).0
        ≡ map upstream_id upstream
  unfolding map_flights map_flight
  map-map_flights index session [] liveries w = refl
  map-map_flights index session (item ∷ upstream) liveries w =
      let looked = lookup_livery store item.livery_id liveries w in
      ap (◌∷◌ item.flight_id) (map-map_flights index session upstream looked.1 looked.2)

  -- The entry of a server that a refresh has written for the flights `upstream`, `n` of them.
  pub record Stored (name : String) (upstream : List Upstream.Flight) (n : ℕ) (w : W) : Type 0 where
    pub result : List Flight
    pub entry :
        c.holds Shape.flights_shape (key_active_flights name) w
        ≡ some (record { result = result; last_cached = now })
    pub count : length result ≡ n
    pub distinct : IsDistinct flight_id result
    pub ids : map flight_id result ≡ add_keys [] (map upstream_id upstream)

  write_flights-done :
      (existing : List Flight) (session : Session) (upstream : List Upstream.Flight)
      (m : List Flight × Map Livery × W) (n : ℕ) (liveries' : Map Livery) (w' : W)
      → map flight_id m.0 ≡ map upstream_id upstream
      → write_flights store client go now existing session m ≡ (some n, liveries', w')
      → Stored session.normalized_name upstream n w'
  write_flights-done existing session upstream (mapped, liveries, w) n liveries' w' ids e =
      let result = upsert_flights existing mapped in
      let s : Snapshot = record { result = result; last_cached = now } in
      let before = cache_histories store (index_from [] existing) result w in
      let key = key_active_flights session.normalized_name in
      elim (Bool-cases (store.set_json Shape.flights_shape key s game_active_flight_ttl before).0) [
        | inl ok ↦
            let e' = rw ok at e in
            record {
              result = result;
              entry =
                  ap (c.holds Shape.flights_shape key) (sym (ap (λ p. p.2) e'))
                  ∙ c.set_ok Shape.flights_shape key s game_active_flight_ttl before ok;
              count = eq_of_some (ap (λ p. p.0) e');
              distinct = upsert_flights-IsDistinct existing mapped;
              ids = map-upsert_flights existing mapped ∙ ap (add_keys []) ids;
            }
        | inr failed ↦ let e' = rw failed at e in cc
      ]

  after_fetch-done :
      (session : Session) (liveries : Map Livery) (fetched : Option (List Upstream.Flight) × W)
      (n : ℕ) (liveries' : Map Livery) (w' : W)
      → after_fetch store client go now session liveries fetched ≡ (some n, liveries', w')
      → (upstream : List Upstream.Flight) × (fetched.0 ≡ some upstream)
        × Stored session.normalized_name upstream n w'
  after_fetch-done session liveries (none, w) n liveries' w' e = cc
  after_fetch-done session liveries (some upstream, w) n liveries' w' e =
      let read =
        store.get_json Shape.flights_shape (key_active_flights session.normalized_name) w in
      let existing = result_of read.0 in
      (
        upstream,
        refl,
        write_flights-done existing session upstream _ n liveries' w'
            (map-map_flights (index_from [] existing) session upstream liveries read.1) e,
      )

  -- If the refresh of a session reports `n` flights, it has fetched flights, and the cache holds an
  -- entry for the session's server with the time of the refresh and `n` flights: their ids are
  -- distinct, and are the ids that were fetched, in the order in which each comes first.
  pub refresh_session-Stored :
      (session : Session) (liveries : Map Livery) (w : W) (n : ℕ) (liveries' : Map Livery) (w' : W)
      → refresh_session store client go now session liveries w ≡ (some n, liveries', w')
      → (upstream : List Upstream.Flight) × ((client session.id w).0 ≡ some upstream)
        × Stored session.normalized_name upstream n w'
  unfolding refresh_session
  refresh_session-Stored session liveries w n liveries' w' e =
      after_fetch-done session liveries (client session.id w) n liveries' w' e
