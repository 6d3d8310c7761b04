-- ===== src/Cache/Redis/Received.antt =====
-- What `RedisStore` makes of the answers of its client.
use politburo.Prelude.{String, Bool, true, false, Option, none, some, ◌≡◌, ◌≢◌, refl}
use politburo.Cache.{Shape, El, hit, miss}
use politburo.Cache.Redis.{
  Got, value, redis_nil, get_error, RedisClient, Json, Metrics, observe_payload, decoded, received,
  was_set, was_deleted,
}

module _ {D W : Type 0} (client : RedisClient D W) (json : Json D) where
  abbrev pub decode : (t : Shape) → Option D → Option (El t)
  decode t none = none
  decode t (some d) = json.unmarshal t d

  server-decoded :
      (t : Shape) (op : String) (o : Option (El t)) (w : W) (m : Metrics)
      → (decoded client json t op o w m).1.server ≡ w
  server-decoded t op none w m = refl
  server-decoded t op (some v) w m = refl

  pub server-received :
      (t : Shape) (op : String) (r : Got D × W) (m : Metrics)
      → (received client json t op r m).1.server ≡ r.1
  server-received t op (redis_nil, w) m = refl
  server-received t op (get_error, w) m = refl
  server-received t op (value d, w) m =
      server-decoded t op (json.unmarshal t d) w (observe_payload op (json.size d) m)

  decoded-hit :
      (t : Shape) (op : String) (o : Option (El t)) (w : W) (m : Metrics) (v : El t)
      → (decoded client json t op o w m).0 ≡ hit v
      → o ≡ some v
  decoded-hit t op none w m v e = cc
  decoded-hit t op (some u) w m v e = cc

  decoded-miss :
      (t : Shape) (op : String) (o : Option (El t)) (w : W) (m : Metrics)
      → (decoded client json t op o w m).0 ≢ miss
  decoded-miss t op none w m e = cc
  decoded-miss t op (some u) w m e = cc

  pub received-hit :
      (t : Shape) (op : String) (r : Got D × W) (m : Metrics) (v : El t)
      → (received client json t op r m).0 ≡ hit v
      → (d : D) × (r.0 ≡ value d) × (json.unmarshal t d ≡ some v)
  received-hit t op (redis_nil, w) m v e = cc
  received-hit t op (get_error, w) m v e = cc
  received-hit t op (value d, w) m v e =
      (d, refl, decoded-hit t op (json.unmarshal t d) w (observe_payload op (json.size d) m) v e)

  pub received-miss :
      (t : Shape) (op : String) (r : Got D × W) (m : Metrics)
      → (received client json t op r m).0 ≡ miss
      → r.0 ≡ redis_nil
  received-miss t op (redis_nil, w) m e = refl
  received-miss t op (get_error, w) m e = cc
  received-miss t op (value d, w) m e =
      absurd (decoded-miss t op (json.unmarshal t d) w (observe_payload op (json.size d) m) e)

  pub server-was_set :
      (r : Bool × W) (m : Metrics)
      → ((was_set client json r m).1.server ≡ r.1) × ((was_set client json r m).0 ≡ r.0)
  server-was_set (true, w) m = (refl, refl)
  server-was_set (false, w) m = (refl, refl)

  pub server-was_deleted :
      (r : Bool × W) (m : Metrics)
      → ((was_deleted client json r m).1.server ≡ r.1) × ((was_deleted client json r m).0 ≡ r.0)
  server-was_deleted (true, w) m = (refl, refl)
  server-was_deleted (false, w) m = (refl, refl)
