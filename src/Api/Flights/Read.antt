-- ===== src/Api/Flights/Read.antt =====
-- What the reads of the cache come to.
use politburo.Prelude.{
  String, Bool, true, false, Option, some, List, eqb, eqb_iff, ◌≡◌, ◌≢◌, refl, arith, Bool-cases,
  inl, inr,
}
use politburo.Flights.{Snapshot}
use politburo.Cache.{Shape, Reply, hit, miss, broken, Store}
use politburo.Cache.Contract.{Contract}
use politburo.Cache.Keys.{key_session_names, key_active_flights}
use politburo.Http
use politburo.Http.{Headers, Response}
use politburo.Api.Flights.{Body, Loading, loaded, answered}
use politburo.Api.Flights.Load.{is_one_of, snapshot_of, read_snapshot, known_from, known_server}

unfoldable pub is_failure : Http.Body Body → Bool
is_failure (Http.Body.failure code message) = true
is_failure b = false

abbrev pub IsError : Response Body → Type 0
IsError r = is_failure r.body ≡ true

module _ {W : Type 0} (store : Store W) (c : Contract store) (h : Headers)
    (server_id : String) where
  -- what the cache holds for a server
  abbrev pub held_in : W → Option Snapshot
  held_in w = c.holds Shape.flights_shape (key_active_flights server_id) w

  abbrev pub IsRead : W → Loading W Snapshot → Type 0
  IsRead w (loaded s w') = (held_in w ≡ some s) × (s.last_cached ≢ 0)
  IsRead w (answered r) = IsError r.0

  pub snapshot_of-IsRead :
      (w : W) (r : Reply Snapshot × W)
      → ((s : Snapshot) → r.0 ≡ hit s → held_in w ≡ some s)
      → IsRead w (snapshot_of store h r)
  unfolding is_failure
  snapshot_of-IsRead w (hit s, w') is_hit = elim (Bool-cases (eqb s.last_cached 0)) [
    | inl zero ↦ rw zero refl
    | inr set ↦
        let is_cached : s.last_cached ≢ 0 = ground (arith, eqb_iff s.last_cached 0) in
        let sound : (held_in w ≡ some s) × (s.last_cached ≢ 0) = (is_hit s refl, is_cached) in
        rw set sound
  ]
  snapshot_of-IsRead w (miss, w') is_hit = refl
  snapshot_of-IsRead w (broken, w') is_hit = refl

  pub read_snapshot-IsRead : (w : W) → IsRead w (read_snapshot store h server_id w)
  unfolding read_snapshot
  read_snapshot-IsRead w =
      snapshot_of-IsRead w _ (c.get_hit Shape.flights_shape (key_active_flights server_id) w)

  abbrev pub IsKnown : W → Loading W Unit → Type 0
  IsKnown w (loaded u w') = held_in w' ≡ held_in w
  IsKnown w (answered r) = IsError r.0

  known_from-IsKnown :
      (w : W) (r : Reply (List String) × W)
      → held_in r.1 ≡ held_in w
      → IsKnown w (known_from store h server_id r)
  unfolding is_failure
  known_from-IsKnown w (hit names, w') keeps = elim (Bool-cases (is_one_of server_id names)) [
    | inl known ↦ rw known keeps
    | inr unknown ↦ rw unknown refl
  ]
  known_from-IsKnown w (miss, w') keeps = keeps
  known_from-IsKnown w (broken, w') keeps = refl

  pub known_server-IsKnown : (w : W) → IsKnown w (known_server store h server_id w)
  unfolding known_server
  known_server-IsKnown w = known_from-IsKnown w _ (
      c.get_keeps Shape.names_shape Shape.flights_shape key_session_names
        (key_active_flights server_id) w)
