-- ===== src/Cache/Redis.antt =====
-- internal/cache/store.go: `RedisStore` over the client of go-redis and `encoding/json`, which are
-- parameters. The durations that the metrics record are left out.
pub mod Received
pub mod Laws
pub mod Counted
use politburo.Prelude.{ℕ, ◌+◌, String, Bool, true, false, Option, none, some, List, [], ◌∷◌, ◌++◌}
use politburo.Cache.{Shape, El, Reply, hit, miss, broken, Store}

-- the result of GET and GETDEL: a value, `redis.Nil`, or another error
pub data Got (D : Type 0) : Type 0 where
  value : D → Got D
  redis_nil : Got D
  get_error : Got D

-- A write, a deletion and a ping answer `true` for a nil error.
pub record RedisClient (D W : Type 0) : Type 0 where
  pub get : String → W → Got D × W
  pub get_del : String → W → Got D × W
  pub set : String → D → ℕ → W → Bool × W
  pub del : String → W → Bool × W
  pub ping : W → Bool × W

pub record Json (D : Type 0) : Type 0 where
  pub marshal : (t : Shape) → El t → Option D
  pub unmarshal : (t : Shape) → D → Option (El t)
  pub size : D → ℕ

-- What the counters and histograms of the registry have been given, in order.
pub record Metrics : Type 0 where
  pub cache_operations : List (String × String)
  pub cache_payload_bytes : List (String × ℕ)
  pub cache_inserts : ℕ

pub record State (W : Type 0) : Type 0 where
  pub server : W
  pub metrics : Metrics

abbrev pub observe_payload : String → ℕ → Metrics → Metrics
observe_payload operation n m = record m {
  cache_payload_bytes = m.cache_payload_bytes ++ (operation, n) ∷ [];
}

abbrev pub count_insert : Metrics → Metrics
count_insert m = record m { cache_inserts = m.cache_inserts + 1 }

abbrev pub observe : String → String → Metrics → Metrics
observe operation outcome m = record m {
  cache_operations = m.cache_operations ++ (operation, outcome) ∷ [];
}

-- the end of an operation, with its deferred call of `observe`
abbrev pub finish : {W A : Type 0} → String → String → A → W → Metrics → A × State W
finish operation outcome a w m = (a, record { server = w; metrics = observe operation outcome m })

module _ {D W : Type 0} (client : RedisClient D W) (json : Json D) where
  abbrev pub decoded : (t : Shape) → String → Option (El t) → W → Metrics → Reply (El t) × State W
  decoded t operation (some v) w m = finish operation "hit" (hit v) w m
  decoded t operation none w m = finish operation "error" broken w m

  -- what `GetJSON` and `GetDelJSON` make of the answer
  abbrev pub received : (t : Shape) → String → Got D × W → Metrics → Reply (El t) × State W
  received t operation (redis_nil, w) m = finish operation "miss" miss w m
  received t operation (get_error, w) m = finish operation "error" broken w m
  received t operation (value d, w) m =
      decoded t operation (json.unmarshal t d) w (observe_payload operation (json.size d) m)

  unfoldable pub get_json : (t : Shape) → String → State W → Reply (El t) × State W
  get_json t key s = received t "get" (client.get key s.server) s.metrics

  unfoldable pub get_del_json : (t : Shape) → String → State W → Reply (El t) × State W
  get_del_json t key s = received t "getdel" (client.get_del key s.server) s.metrics

  abbrev pub was_set : Bool × W → Metrics → Bool × State W
  was_set (true, w) m = finish "set" "success" true w (count_insert m)
  was_set (false, w) m = finish "set" "error" false w m

  abbrev pub encoded : String → ℕ → Option D → State W → Bool × State W
  encoded key ttl none s = finish "set" "error" false s.server s.metrics
  encoded key ttl (some d) s =
      was_set (client.set key d ttl s.server) (observe_payload "set" (json.size d) s.metrics)

  unfoldable pub set_json : (t : Shape) → String → El t → ℕ → State W → Bool × State W
  set_json t key v ttl s = encoded key ttl (json.marshal t v) s

  abbrev pub was_deleted : Bool × W → Metrics → Bool × State W
  was_deleted (true, w) m = finish "delete" "success" true w m
  was_deleted (false, w) m = finish "delete" "error" false w m

  unfoldable pub delete : String → State W → Bool × State W
  delete key s = was_deleted (client.del key s.server) s.metrics

  abbrev pub was_pinged : Bool × W → Metrics → Bool × State W
  was_pinged (true, w) m = finish "ping" "success" true w m
  was_pinged (false, w) m = finish "ping" "error" false w m

  unfoldable pub ping : State W → Bool × State W
  ping s = was_pinged (client.ping s.server) s.metrics

  abbrev pub redis_store : Store (State W)
  redis_store = record {
    get_json = get_json;
    set_json = set_json;
    delete = delete;
    get_del_json = get_del_json;
  }
