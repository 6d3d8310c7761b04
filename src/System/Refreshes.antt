-- ===== src/System/Refreshes.antt =====
-- The jobs write no ticket and no session.
use politburo.Prelude.{
  String, Char, Bool, true, false, Option, none, some, List, [], ◌∷◌, ◌≡◌, refl, Bool-cases, inl,
  inr,
}
use politburo.Upstream
use politburo.Upstream.{Time, Session}
use politburo.Flights.Mapper.{Numerics}
use politburo.Cache
use politburo.Cache.{Shape, Reply}
use politburo.Cache.Contract.{Contract}
use politburo.Cache.Keys.{
  key_active_sessions, key_session_names, key_livery, key_active_flights, key_flight_history,
}
use politburo.Cache.Keys.Laws.{Entry, key_of}
use politburo.Jobs.Sessions
use politburo.Jobs.Sessions.{SessionsClient, after_names, write_names, refresh, write_snapshot}
use politburo.Jobs.Liveries
use politburo.Jobs.Liveries.{LiveriesClient, set_livery, livery_of, write_all}
use politburo.Jobs.Flights
use politburo.Jobs.Flights.{FlightsClient}
use politburo.Jobs.Flights.Steps.{IsKept, run-keeps}
use politburo.System.{World, lifted, lifted_store}
use politburo.System.Fades.{
  Fades, IsSteady, Fades-refl, Fades-trans, steady-Fades, get_json-Fades, set_json-Fades,
}
use politburo.System.Handlers.{key_of-free}

module _ {W : Type 0} (store : Cache.Store W) (c : Contract store) where
  after_names-state : (p : Bool × World W) → (after_names (lifted_store store) p).1 ≡ p.1
  after_names-state (true, v) = refl
  after_names-state (false, v) = refl

  write_names-Fades :
      (sessions : List Session) (v : World W) (p : Bool × World W)
      → Fades store c v p.1
      → Fades store c v (write_names (lifted_store store) sessions p).1
  unfolding key_of
  write_names-Fades sessions v (true, v') f = rw after_names-state (
      Fades-trans store c v v' _ f (
        set_json-Fades store c Shape.names_shape key_session_names _ 0 v'
          (key_of-free Entry.session_names refl)))
  write_names-Fades sessions v (false, v') f = f

  sessions-Fades :
      (lower : Char → Char) (now : Time) (v : World W) (p : Option (List Session) × World W)
      → Fades store c v p.1
      → Fades store c v (refresh (lifted_store store) lower now p).1
  unfolding key_of
  sessions-Fades lower now v (none, v') f = f
  sessions-Fades lower now v (some sessions, v') f =
      let read = (lifted_store store).get_json Shape.sessions_shape key_active_sessions v' in
      let known = Fades-trans store c v v' read.1 f (get_json-Fades store c _ _ v') in
      write_names-Fades _ v _ (
        Fades-trans store c v read.1 _ known (
          set_json-Fades store c Shape.sessions_shape key_active_sessions _ _ read.1
            (key_of-free Entry.active_sessions refl)))

  pub sessions_run-Fades :
      (client : SessionsClient W) (lower : Char → Char) (now : Time) (v : World W)
      → IsSteady store c client
      → Fades store c v (Sessions.run (lifted_store store) (lifted client) lower now v).1
  unfolding Sessions.run
  sessions_run-Fades client lower now v steady =
      sessions-Fades lower now v (lifted client v) (steady-Fades store c client v steady)

  write_all-Fades :
      (upstream : List Upstream.Livery) (v : World W)
      → Fades store c v (write_all (lifted_store store) upstream v).1
  unfolding write_all key_of
  write_all-Fades [] v = Fades-refl store c v
  write_all-Fades (item ∷ upstream) v =
      let (ok, v') = set_livery (lifted_store store) item v in
      let first : Fades store c v v' =
        set_json-Fades store c Shape.livery_shape (key_livery item.id) (livery_of item) _ v
          (key_of-free (Entry.livery item.id) refl) in
      elim (Bool-cases (set_livery (lifted_store store) item v).0) [
        | inl done ↦ rw done (Fades-trans store c v v' _ first (write_all-Fades upstream v'))
        | inr failed ↦ rw failed first
      ]

  liveries-Fades :
      (v : World W) (p : Option (List Upstream.Livery) × World W)
      → Fades store c v p.1
      → Fades store c v (Liveries.refresh (lifted_store store) p).1
  liveries-Fades v (none, v') f = f
  liveries-Fades v (some upstream, v') f =
      Fades-trans store c v v' _ f (write_all-Fades upstream v')

  pub liveries_run-Fades :
      (client : LiveriesClient W) (v : World W)
      → IsSteady store c client
      → Fades store c v (Liveries.run (lifted_store store) (lifted client) v).1
  unfolding Liveries.run
  liveries_run-Fades client v steady =
      liveries-Fades v (lifted client v) (steady-Fades store c client v steady)

  pub flights_run-Fades :
      (client : FlightsClient W) (go : Numerics) (now : Time) (v : World W)
      → ((id : String) → IsSteady store c (client id))
      → Fades store c v (Flights.run (lifted_store store) (λ id. lifted (client id)) go now v).1
  unfolding key_of
  flights_run-Fades client go now v steady =
      run-keeps (lifted_store store) (λ id. lifted (client id)) go now kept v (Fades-refl store c v)
    where
      kept : IsKept (lifted_store store) (λ id. lifted (client id)) go now (Fades store c v)
      kept = record {
        reads = λ t k v' f. Fades-trans store c v v' _ f (get_json-Fades store c t k v');
        fetches = λ id v' f.
            Fades-trans store c v v' _ f (steady-Fades store c (client id) v' (steady id));
        flights = λ name s v' f. Fades-trans store c v v' _ f (
            set_json-Fades store c Shape.flights_shape (key_active_flights name) s _ v'
              (key_of-free (Entry.active_flights name) refl));
        histories = λ id old prior v' f. Fades-trans store c v v' _ f (
            set_json-Fades store c Shape.history_shape (key_flight_history id) _ _ v'
              (key_of-free (Entry.flight_history id) refl));
      }
