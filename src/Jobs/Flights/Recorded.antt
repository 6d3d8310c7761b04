-- ===== src/Jobs/Flights/Recorded.antt =====
-- What a refresh of a session's flights writes to their histories.
use politburo.Prelude.{
  String, Option, none, some, List, [], ◌==◌, if◌then◌else◌, map, Map, get, ◌≡◌, ◌⊎◌, inl, inr,
  refl, sym, ap, subst, ◌∙◌, eq_of_some,
}
use politburo.Keyed.{find_last}
use politburo.Keyed.Laws.{has_key, has_key-add_keys, or_first-none}
use politburo.Upstream
use politburo.Upstream.{Time, Session}
use politburo.GameSessions.{Livery}
use politburo.Flights.{Flight, flight_id, Snapshot, game_active_flight_ttl}
use politburo.Flights.Mapper.{Numerics, index_from, upsert_flights}
use politburo.Flights.Upsert.{get-index_from, upsert_flights-IsDistinct, map-upsert_flights}
use politburo.Cache.{Shape, Store, broken}
use politburo.Cache.Contract.{Contract, get_cases}
use politburo.Cache.Keys.{key_active_flights, key_flight_history}
use politburo.Jobs.Flights.{
  FlightsClient, cache_histories, map_flights, result_of, write_flights, after_fetch,
  refresh_session,
}
use politburo.Jobs.Flights.Steps.{map_flights-keeps}
use politburo.Jobs.Flights.Stored.{upstream_id, map-map_flights}
use politburo.Jobs.Flights.Kept.{key_flight_history-ne_flights}
use politburo.Jobs.Flights.Histories.{
  history_at, Recorded, Recorded-before, Recorded-after, cache_histories-Recorded,
}

module _ {W : Type 0} (store : Store W) (c : Contract store) where
  -- The flights that a refresh found in the cache: those of the snapshot, or none.
  abbrev pub Existing : String → W → List Flight → Type 0
  Existing name w existing =
      ((s : Snapshot) × (c.holds Shape.flights_shape (key_active_flights name) w ≡ some s)
        × (existing ≡ s.result))
      ⊎ (((c.holds Shape.flights_shape (key_active_flights name) w ≡ none)
            ⊎ ((v : W) × ((store.get_json Shape.flights_shape (key_active_flights name) v).0
                  ≡ broken)))
          × (existing ≡ []))

  result_of-Existing :
      (name : String) (w : W)
      → Existing name w
          (result_of (store.get_json Shape.flights_shape (key_active_flights name) w).0)
  result_of-Existing name w = elim (get_cases c Shape.flights_shape (key_active_flights name) w) [
    | inl failed ↦ rw failed (inr (inr (w, failed), refl))
    | inr (inl (s, got, held)) ↦ rw got (inl (s, held, refl))
    | inr (inr (got, gone)) ↦ rw got (inr (inl gone, refl))
  ]

  -- The flight of an id in the snapshot before, if the API gave the id again and it is not blank.
  abbrev pub prior_in : List Flight → List Upstream.Flight → String → Option Flight
  prior_in existing upstream k =
      if k == ""
      then none
      else if has_key k (map upstream_id upstream)
      then find_last flight_id k existing
      else none

  module _ (client : FlightsClient W) (go : Numerics) (now : Time) where
    write_flights-Recorded :
        (existing : List Flight) (session : Session) (upstream : List Upstream.Flight)
        (m : List Flight × Map Livery × W) (k : String)
        → map flight_id m.0 ≡ map upstream_id upstream
        → Recorded store c k
            (prior_in existing upstream k)
            m.2
            (write_flights store client go now existing session m).2
    unfolding get find_last
    write_flights-Recorded existing session upstream (mapped, liveries, w) k ids =
        let result = upsert_flights existing mapped in
        let index = index_from [] existing in
        let v = cache_histories store index result w in
        let same_keys : has_key k (map flight_id result) ≡ has_key k (map upstream_id upstream) =
          ap (has_key k) (map-upsert_flights existing mapped)
          ∙ has_key-add_keys k [] (map flight_id mapped)
          ∙ ap (has_key k) ids in
        let same_prior : get k index ≡ find_last flight_id k existing =
          get-index_from k existing [] ∙ or_first-none (find_last flight_id k existing) in
        let recorded : Recorded store c k (prior_in existing upstream k) w v =
          rw (← same_keys, ← same_prior)
            (cache_histories-Recorded store c index k result w
              (upsert_flights-IsDistinct existing mapped)) in
        Recorded-after store c k (prior_in existing upstream k) w v _
          (c.set_ne Shape.flights_shape Shape.history_shape
            (key_active_flights session.normalized_name) (key_flight_history k)
            (record { result = result; last_cached = now }) game_active_flight_ttl v
            (key_flight_history-ne_flights k session.normalized_name))
          recorded

    after_fetch-Recorded :
        (session : Session) (liveries : Map Livery) (upstream : List Upstream.Flight) (w : W)
        (k : String)
        → (existing : List Flight) × Existing session.normalized_name w existing
          × Recorded store c k
              (prior_in existing upstream k)
              w
              (after_fetch store client go now session liveries (some upstream, w)).2
    after_fetch-Recorded session liveries upstream w k =
        let name = key_active_flights session.normalized_name in
        let read = store.get_json Shape.flights_shape name w in
        let existing = result_of read.0 in
        let index = index_from [] existing in
        let m = map_flights store client go now index session upstream liveries read.1 in
        let unread : history_at store c k read.1 ≡ history_at store c k w =
          c.get_keeps Shape.flights_shape Shape.history_shape name (key_flight_history k) w in
        let same : history_at store c k m.2 ≡ history_at store c k w =
          map_flights-keeps store client go now
            {P = λ v. history_at store c k v ≡ history_at store c k w}
            (λ t j v e. c.get_keeps t Shape.history_shape j (key_flight_history k) v ∙ e) index
            session upstream liveries read.1 unread in
        (
          existing,
          result_of-Existing session.normalized_name w,
          Recorded-before store c k (prior_in existing upstream k) w m.2 _ same (
              write_flights-Recorded existing session upstream m k
                (map-map_flights store c client go now index session upstream liveries read.1)),
        )

    before-Recorded :
        (session : Session) (upstream : List Upstream.Flight) (w v w' : W) (k : String)
        → ((t : Shape) (j : String) → c.holds t j v ≡ c.holds t j w)
        → (existing : List Flight) × Existing session.normalized_name v existing
          × Recorded store c k (prior_in existing upstream k) v w'
        → (existing : List Flight) × Existing session.normalized_name w existing
          × Recorded store c k (prior_in existing upstream k) w w'
    before-Recorded session upstream w v w' k steady (existing, from, recorded) =
        let key = key_active_flights session.normalized_name in
        let same = steady Shape.flights_shape key in
        (
          existing,
          elim from [
            | inl (s, held, e) ↦ inl (s, sym same ∙ held, e)
            | inr (inl gone, e) ↦ inr (inl (sym same ∙ gone), e)
            | inr (inr failed, e) ↦ inr (inr failed, e)
          ],
          Recorded-before store c k (prior_in existing upstream k) w v w'
              (steady Shape.history_shape (key_flight_history k)) recorded,
        )

    -- A refresh of a session appends to the history of exactly those flights that its snapshot had
    -- and that the API gave again, the flight that the snapshot had, without its own history and its
    -- path, and cuts it to the last 25; every other history stays as it was. A history that the cache does not hold, or that cannot
    -- be read, starts from the one that the flight carries, and where a write fails the history
    -- stays. Calls of the client are taken to leave the cache as it is.
    pub refresh_session-Recorded :
        (session : Session) (liveries : Map Livery) (w : W) (upstream : List Upstream.Flight)
        (k : String)
        → (client session.id w).0 ≡ some upstream
        → ((t : Shape) (j : String) → c.holds t j (client session.id w).1 ≡ c.holds t j w)
        → (existing : List Flight) × Existing session.normalized_name w existing
          × Recorded store c k
              (prior_in existing upstream k)
              w
              (refresh_session store client go now session liveries w).2
    unfolding refresh_session
    refresh_session-Recorded session liveries w upstream k fetched steady =
        split (client session.id w) fetched steady
      where
        split :
            (p : Option (List Upstream.Flight) × W)
            → p.0 ≡ some upstream
            → ((t : Shape) (j : String) → c.holds t j p.1 ≡ c.holds t j w)
            → (existing : List Flight) × Existing session.normalized_name w existing
              × Recorded store c k
                  (prior_in existing upstream k)
                  w
                  (after_fetch store client go now session liveries p).2
        split (none, v) e same = cc
        split (some items, v) e same =
            subst
              (λ items.
                (existing : List Flight) × Existing session.normalized_name w existing
                × Recorded store c k (prior_in existing upstream k) w
                    (after_fetch store client go now session liveries (some items, v)).2)
              (sym (eq_of_some e))
              (before-Recorded session upstream w v _ k same
                (after_fetch-Recorded session liveries upstream v k))
