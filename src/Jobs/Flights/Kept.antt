-- ===== src/Jobs/Flights/Kept.antt =====
-- What a refresh of the flights keeps: the entries that are not its own, and the bound of the
-- histories.
use politburo.Prelude.{
  ◌≤◌, String, Option, none, some, List, [], ◌∷◌, ◌++◌, ◌==◌, length, ◌≡◌, ◌≢◌, ◌∙◌, refl, sym, ap,
  subst, arith, eq_iff, Bool-cases, inl, inr,
}
use politburo.Recent.{length-keep_last-le}
use politburo.Upstream.{Time}
use politburo.Flights.{Flight, HistorySnapshot, max_history, game_active_flight_ttl}
use politburo.Flights.Mapper.{Numerics, historical, next_history}
use politburo.Cache.{Shape, Store}
use politburo.Cache.Contract.{Contract}
use politburo.Cache.Keys.{key_active_flights, key_flight_history}
use politburo.Cache.Keys.Laws.{Entry, key_of, key_of-injective}
use politburo.Jobs.Flights.{FlightsClient, run}
use politburo.Jobs.Flights.Steps.{IsKept, run-keeps}

entry_id : Entry → String
entry_id (Entry.flight_history k) = k
entry_id e = ""

pub key_flight_history-ne : (j k : String) → j ≢ k → key_flight_history j ≢ key_flight_history k
unfolding key_of entry_id
key_flight_history-ne j k h e =
    h (ap entry_id (key_of-injective (Entry.flight_history j) (Entry.flight_history k) e))

pub key_flight_history-ne_flights :
    (id name : String) → key_flight_history id ≢ key_active_flights name
unfolding key_of
key_flight_history-ne_flights id name e =
    apart (key_of-injective (Entry.flight_history id) (Entry.active_flights name) e)
  where
    apart : Entry.flight_history id ≡ Entry.active_flights name → ⊥
    apart h = cc

length-next_history-le :
    (old : List Flight) (prior : Flight) → length (next_history old prior) ≤ max_history
unfolding next_history
length-next_history-le old prior = length-keep_last-le max_history (old ++ historical prior ∷ [])

module _ {W : Type 0} (store : Store W) (client : FlightsClient W) (go : Numerics)
    (now : Time) where
  module _ (c : Contract store) where
    -- The entries of the cache that are neither the flights of a server nor the history of a flight
    -- are the same after a refresh of the flights, if calls of the client leave them as they are.
    pub run-holds :
        (t : Shape) (k : String) (w : W)
        → ((id : String) (w' : W) → c.holds t k (client id w').1 ≡ c.holds t k w')
        → ((name : String) → k ≢ key_active_flights name)
        → ((id : String) → k ≢ key_flight_history id)
        → c.holds t k (run store client go now w).1 ≡ c.holds t k w
    run-holds t k w steady no_flights no_history = run-keeps store client go now same w refl
      where
        same : IsKept store client go now (λ w'. c.holds t k w' ≡ c.holds t k w)
        same = record {
          reads = λ u j w' e. c.get_keeps u t j k w' ∙ e;
          fetches = λ id w' e. steady id w' ∙ e;
          flights = λ name s w' e. c.set_ne _ t _ k s _ w' (no_flights name) ∙ e;
          histories = λ id old prior w' e. c.set_ne _ t _ k _ _ w' (no_history id) ∙ e;
        }

    -- no history in the cache is longer than the bound
    abbrev IsBounded : Option HistorySnapshot → Type 0
    IsBounded none = Unit
    IsBounded (some s) = length s.result ≤ max_history

    abbrev pub AreBounded : W → Type 0
    AreBounded w = (id : String) → IsBounded (c.holds Shape.history_shape (key_flight_history id) w)

    AreBounded-set_history :
        (j : String) (old : List Flight) (prior : Flight) (w : W)
        → AreBounded w
        → AreBounded
            (store.set_json Shape.history_shape
              (key_flight_history j)
              (record { result = next_history old prior })
              game_active_flight_ttl
              w).1
    AreBounded-set_history j old prior w b id =
        let next : HistorySnapshot = record { result = next_history old prior } in
        let k = key_flight_history j in
        elim (Bool-cases (id == j)) [
          | inl same ↦
              let at : j ≡ id = sym ((eq_iff id j).0 same) in
              subst
                (λ id. IsBounded (
                  c.holds Shape.history_shape (key_flight_history id)
                    (store.set_json Shape.history_shape k next game_active_flight_ttl w).1))
                at
                (elim (c.set_either Shape.history_shape k next game_active_flight_ttl w) [
                  | inl unset ↦ subst IsBounded (sym unset) (b j)
                  | inr set ↦ subst IsBounded (sym set) (length-next_history-le old prior)
                ])
          | inr other ↦
              subst IsBounded
                (sym (
                  c.set_ne Shape.history_shape Shape.history_shape k (key_flight_history id) next
                    game_active_flight_ttl w
                    (key_flight_history-ne id j (ground (arith, eq_iff id j)))))
                (b id)
        ]

    -- A refresh of the flights keeps every history in the cache within 25 flights, if calls of the
    -- client leave them so.
    pub run-AreBounded :
        (w : W)
        → ((id : String) (w' : W) → AreBounded w' → AreBounded (client id w').1)
        → AreBounded w
        → AreBounded (run store client go now w).1
    run-AreBounded w steady h = run-keeps store client go now bounded w h
      where
        bounded : IsKept store client go now AreBounded
        bounded = record {
          reads = λ t k w' b id.
              subst IsBounded (sym (c.get_keeps t Shape.history_shape k (key_flight_history id) w'))
                (b id);
          fetches = steady;
          flights = λ name s w' b id.
              subst IsBounded
                (sym (
                  c.set_ne Shape.flights_shape Shape.history_shape (key_active_flights name)
                    (key_flight_history id) s game_active_flight_ttl w'
                    (key_flight_history-ne_flights id name)))
                (b id);
          histories = λ j old prior w' b. AreBounded-set_history j old prior w' b;
        }
