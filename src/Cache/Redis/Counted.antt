-- ===== src/Cache/Redis/Counted.antt =====
-- What `RedisStore` tells its metrics.
use politburo.Prelude.{
  ℕ, ◌+◌, String, Bool, true, false, Option, none, some, [], ◌∷◌, ◌++◌, ◌≡◌, refl, arith,
}
use politburo.Cache.{Shape, El, Reply, hit, miss, broken}
use politburo.Cache.Redis.{
  Got, value, redis_nil, get_error, RedisClient, Json, Metrics, State, observe_payload, decoded,
  received, get_json, get_del_json, was_set, encoded, set_json, was_deleted, delete,
}

abbrev pub read_outcome : {A : Type 0} → Reply A → String
read_outcome (hit v) = "hit"
read_outcome miss = "miss"
read_outcome broken = "error"

abbrev pub write_outcome : Bool → String
write_outcome true = "success"
write_outcome false = "error"

-- The operation is counted once, under the outcome, and so many insertions with it.
abbrev pub IsCounted : String → String → ℕ → Metrics → Metrics → Type 0
IsCounted operation outcome inserts m m' =
    (m'.cache_operations ≡ m.cache_operations ++ (operation, outcome) ∷ [])
    × (m'.cache_inserts ≡ m.cache_inserts + inserts)

module _ {D W : Type 0} (client : RedisClient D W) (json : Json D) where
  decoded-IsCounted :
      (t : Shape) (op : String) (o : Option (El t)) (w : W) (m : Metrics)
      → IsCounted op
          (read_outcome (decoded client json t op o w m).0)
          0
          m
          (decoded client json t op o w m).1.metrics
  decoded-IsCounted t op (some v) w m = (refl, omega arith)
  decoded-IsCounted t op none w m = (refl, omega arith)

  received-IsCounted :
      (t : Shape) (op : String) (r : Got D × W) (m : Metrics)
      → IsCounted op
          (read_outcome (received client json t op r m).0)
          0
          m
          (received client json t op r m).1.metrics
  received-IsCounted t op (redis_nil, w) m = (refl, omega arith)
  received-IsCounted t op (get_error, w) m = (refl, omega arith)
  received-IsCounted t op (value d, w) m =
      decoded-IsCounted t op (json.unmarshal t d) w (observe_payload op (json.size d) m)

  -- a write counts an insertion if it succeeds, and only then
  abbrev pub inserts_of : Bool → ℕ
  inserts_of true = 1
  inserts_of false = 0

  was_set-IsCounted :
      (r : Bool × W) (m : Metrics)
      → IsCounted "set"
          (write_outcome (was_set client json r m).0)
          (inserts_of (was_set client json r m).0)
          m
          (was_set client json r m).1.metrics
  was_set-IsCounted (true, w) m = (refl, refl)
  was_set-IsCounted (false, w) m = (refl, omega arith)

  encoded-IsCounted :
      (k : String) (ttl : ℕ) (o : Option D) (s : State W)
      → IsCounted "set"
          (write_outcome (encoded client json k ttl o s).0)
          (inserts_of (encoded client json k ttl o s).0)
          s.metrics
          (encoded client json k ttl o s).1.metrics
  encoded-IsCounted k ttl none s = (refl, omega arith)
  encoded-IsCounted k ttl (some d) s = was_set-IsCounted (client.set k d ttl s.server) _

  was_deleted-IsCounted :
      (r : Bool × W) (m : Metrics)
      → IsCounted "delete"
          (write_outcome (was_deleted client json r m).0)
          0
          m
          (was_deleted client json r m).1.metrics
  was_deleted-IsCounted (true, w) m = (refl, omega arith)
  was_deleted-IsCounted (false, w) m = (refl, omega arith)

  -- Every read, write and deletion is counted once, under its name and the outcome that its caller
  -- sees; a write that succeeds counts one insertion, and nothing else counts any.
  pub redis_store-IsCounted :
      (t : Shape) (k : String) (v : El t) (ttl : ℕ) (s : State W)
      → IsCounted "get"
          (read_outcome (get_json client json t k s).0)
          0
          s.metrics
          (get_json client json t k s).1.metrics
        × IsCounted "getdel"
            (read_outcome (get_del_json client json t k s).0)
            0
            s.metrics
            (get_del_json client json t k s).1.metrics
        × IsCounted "delete"
            (write_outcome (delete client json k s).0)
            0
            s.metrics
            (delete client json k s).1.metrics
        × IsCounted "set"
            (write_outcome (set_json client json t k v ttl s).0)
            (inserts_of (set_json client json t k v ttl s).0)
            s.metrics
            (set_json client json t k v ttl s).1.metrics
  unfolding get_json get_del_json set_json delete
  redis_store-IsCounted t k v ttl s = (
    received-IsCounted t "get" (client.get k s.server) s.metrics,
    received-IsCounted t "getdel" (client.get_del k s.server) s.metrics,
    was_deleted-IsCounted (client.del k s.server) s.metrics,
    encoded-IsCounted k ttl (json.marshal t v) s,
  )
