-- ===== src/Cache/Redis/Laws.antt =====
-- `RedisStore` keeps the contract of the cache, and counts every operation once.
use politburo.Prelude.{
  ℕ, String, true, Option, none, some, ◌≡◌, ◌≢◌, ◌⊎◌, ◌∙◌, inl, inr, refl, sym, ap,
}
use politburo.Cache.{Shape, El, hit, miss}
use politburo.Cache.Contract.{Contract}
use politburo.Cache.Redis.{
  value, redis_nil, RedisClient, Json, State, observe_payload, get_json, get_del_json, encoded,
  set_json, delete, redis_store,
}
use politburo.Cache.Redis.Received.{
  decode, server-received, received-hit, received-miss, server-was_set, server-was_deleted,
}

-- What Redis documents of the commands: a string stands under a key until it is overwritten, deleted
-- or has expired. `at` is what stands under a key.
pub record IsRedis {D W : Type 0} (client : RedisClient D W) : Type 0 where
  pub at : String → W → Option D
  pub get_value : (k : String) (w : W) (d : D) → (client.get k w).0 ≡ value d → at k w ≡ some d
  pub get_nil : (k : String) (w : W) → (client.get k w).0 ≡ redis_nil → at k w ≡ none
  pub get_keeps : (k j : String) (w : W) → at j (client.get k w).1 ≡ at j w
  pub set_ok :
      (k : String) (d : D) (ttl : ℕ) (w : W)
      → (client.set k d ttl w).0 ≡ true
      → at k (client.set k d ttl w).1 ≡ some d
  pub set_either :
      (k : String) (d : D) (ttl : ℕ) (w : W)
      → (at k (client.set k d ttl w).1 ≡ at k w) ⊎ (at k (client.set k d ttl w).1 ≡ some d)
  pub set_ne :
      (k j : String) (d : D) (ttl : ℕ) (w : W) → j ≢ k → at j (client.set k d ttl w).1 ≡ at j w
  pub del_ok : (k : String) (w : W) → (client.del k w).0 ≡ true → at k (client.del k w).1 ≡ none
  pub del_either :
      (k : String) (w : W) → (at k (client.del k w).1 ≡ none) ⊎ (at k (client.del k w).1 ≡ at k w)
  pub del_ne : (k j : String) (w : W) → j ≢ k → at j (client.del k w).1 ≡ at j w
  pub get_del_value :
      (k : String) (w : W) (d : D) → (client.get_del k w).0 ≡ value d → at k w ≡ some d
  pub get_del_gone :
      (k : String) (w : W) (d : D)
      → (client.get_del k w).0 ≡ value d
      → at k (client.get_del k w).1 ≡ none
  pub get_del_nil : (k : String) (w : W) → (client.get_del k w).0 ≡ redis_nil → at k w ≡ none
  pub get_del_either :
      (k : String) (w : W)
      → (at k (client.get_del k w).1 ≡ none) ⊎ (at k (client.get_del k w).1 ≡ at k w)
  pub get_del_ne : (k j : String) (w : W) → j ≢ k → at j (client.get_del k w).1 ≡ at j w

-- What is encoded decodes to the same value. The strings of the program are valid UTF-8.
abbrev pub RoundTrips : {D : Type 0} → Json D → Type 0
RoundTrips {D} json =
    (t : Shape) (v : El t) (d : D) → json.marshal t v ≡ some d → json.unmarshal t d ≡ some v

module _ {D W : Type 0} (client : RedisClient D W) (json : Json D) where
  module _ (c : IsRedis client) (round_trips : RoundTrips json) where
    -- what an entry decodes to
    abbrev pub entry : (t : Shape) → String → State W → Option (El t)
    entry t k s = decode client json t (c.at k s.server)

    entry_eq :
        (t : Shape) (k : String) (s s' : State W)
        → c.at k s.server ≡ c.at k s'.server
        → entry t k s ≡ entry t k s'
    entry_eq t k s s' e = ap (decode client json t) e

    decode_eq :
        (t : Shape) (o : Option D) (d : D) (x : Option (El t))
        → o ≡ some d
        → json.unmarshal t d ≡ x
        → decode client json t o ≡ x
    decode_eq t o d x e f = ap (decode client json t) e ∙ f

    get_json-hit :
        (t : Shape) (k : String) (s : State W) (v : El t)
        → (get_json client json t k s).0 ≡ hit v
        → entry t k s ≡ some v
    unfolding get_json
    get_json-hit t k s v e =
        let (d, got, dec) =
          received-hit client json t "get" (client.get k s.server) s.metrics v e in
        decode_eq t (c.at k s.server) d (some v) (c.get_value k s.server d got) dec

    get_json-miss :
        (t : Shape) (k : String) (s : State W)
        → (get_json client json t k s).0 ≡ miss
        → entry t k s ≡ none
    unfolding get_json
    get_json-miss t k s e = ap (decode client json t) (
        c.get_nil k s.server
          (received-miss client json t "get" (client.get k s.server) s.metrics e))

    entry-get_json :
        (t u : Shape) (k j : String) (s : State W)
        → entry u j (get_json client json t k s).1 ≡ entry u j s
    unfolding get_json
    entry-get_json t u k j s = ap (decode client json u) (
        ap (c.at j) (server-received client json t "get" (client.get k s.server) s.metrics)
        ∙ c.get_keeps k j s.server)

    get_del_json-hit :
        (t u : Shape) (k : String) (s : State W) (v : El t)
        → (get_del_json client json t k s).0 ≡ hit v
        → (entry t k s ≡ some v) × (entry u k (get_del_json client json t k s).1 ≡ none)
    unfolding get_del_json
    get_del_json-hit t u k s v e =
        let (d, got, dec) =
          received-hit client json t "getdel" (client.get_del k s.server) s.metrics v e in
        (
          decode_eq t (c.at k s.server) d (some v) (c.get_del_value k s.server d got) dec,
          ap (decode client json u) (
              ap (c.at k)
                (server-received client json t "getdel" (client.get_del k s.server) s.metrics)
              ∙ c.get_del_gone k s.server d got),
        )

    get_del_json-miss :
        (t : Shape) (k : String) (s : State W)
        → (get_del_json client json t k s).0 ≡ miss
        → entry t k s ≡ none
    unfolding get_del_json
    get_del_json-miss t k s e = ap (decode client json t) (
        c.get_del_nil k s.server
          (received-miss client json t "getdel" (client.get_del k s.server) s.metrics e))

    -- an entry whose string is gone or as it was
    entry_either :
        (t : Shape) (k : String) (s s' : State W) (w : W)
        → s'.server ≡ w
        → (c.at k w ≡ none) ⊎ (c.at k w ≡ c.at k s.server)
        → (entry t k s' ≡ none) ⊎ (entry t k s' ≡ entry t k s)
    entry_either t k s s' w e (inl gone) = inl (ap (decode client json t) (ap (c.at k) e ∙ gone))
    entry_either t k s s' w e (inr kept) = inr (ap (decode client json t) (ap (c.at k) e ∙ kept))

    get_del_json_either :
        (t u : Shape) (k : String) (s : State W)
        → (entry u k (get_del_json client json t k s).1 ≡ none)
          ⊎ (entry u k (get_del_json client json t k s).1 ≡ entry u k s)
    unfolding get_del_json
    get_del_json_either t u k s =
        entry_either u k s (get_del_json client json t k s).1 _
          (server-received client json t "getdel" (client.get_del k s.server) s.metrics)
          (c.get_del_either k s.server)

    entry-get_del_json :
        (t u : Shape) (k j : String) (s : State W)
        → j ≢ k
        → entry u j (get_del_json client json t k s).1 ≡ entry u j s
    unfolding get_del_json
    entry-get_del_json t u k j s ne = ap (decode client json u) (
        ap (c.at j) (server-received client json t "getdel" (client.get_del k s.server) s.metrics)
        ∙ c.get_del_ne k j s.server ne)

    delete_ok :
        (t : Shape) (k : String) (s : State W)
        → (delete client json k s).0 ≡ true
        → entry t k (delete client json k s).1 ≡ none
    unfolding delete
    delete_ok t k s e =
        let (at, ok) = server-was_deleted client json (client.del k s.server) s.metrics in
        ap (decode client json t) (ap (c.at k) at ∙ c.del_ok k s.server (sym ok ∙ e))

    delete_either :
        (t : Shape) (k : String) (s : State W)
        → (entry t k (delete client json k s).1 ≡ none)
          ⊎ (entry t k (delete client json k s).1 ≡ entry t k s)
    unfolding delete
    delete_either t k s =
        entry_either t k s (delete client json k s).1 _
          (server-was_deleted client json (client.del k s.server) s.metrics).0
          (c.del_either k s.server)

    delete_ne :
        (t : Shape) (k j : String) (s : State W)
        → j ≢ k
        → entry t j (delete client json k s).1 ≡ entry t j s
    unfolding delete
    delete_ne t k j s ne =
        let (at, ok) = server-was_deleted client json (client.del k s.server) s.metrics in
        ap (decode client json t) (ap (c.at j) at ∙ c.del_ne k j s.server ne)

    -- the three promises of a write, for what the encoder answers
    encoded-laws :
        (t : Shape) (k : String) (v : El t) (ttl : ℕ) (s : State W) (o : Option D)
        → ((d : D) → o ≡ some d → json.unmarshal t d ≡ some v)
        → ((encoded client json k ttl o s).0 ≡ true
            → entry t k (encoded client json k ttl o s).1 ≡ some v)
          × ((entry t k (encoded client json k ttl o s).1 ≡ entry t k s)
              ⊎ (entry t k (encoded client json k ttl o s).1 ≡ some v))
          × ((u : Shape) (j : String)
              → j ≢ k
              → entry u j (encoded client json k ttl o s).1 ≡ entry u j s)
    encoded-laws t k v ttl s none h = (λ e. cc, inl refl, λ u j ne. refl)
    encoded-laws t k v ttl s (some d) h =
        let (at, ok) =
          server-was_set client json (client.set k d ttl s.server)
            (observe_payload "set" (json.size d) s.metrics) in
        (
          λ e.
              decode_eq t _ d (some v) (ap (c.at k) at ∙ c.set_ok k d ttl s.server (sym ok ∙ e))
                (h d refl),
          elim (c.set_either k d ttl s.server) [
            | inl same ↦ inl (ap (decode client json t) (ap (c.at k) at ∙ same))
            | inr set ↦ inr (decode_eq t _ d (some v) (ap (c.at k) at ∙ set) (h d refl))
          ],
          λ u j ne. ap (decode client json u) (ap (c.at j) at ∙ c.set_ne k j d ttl s.server ne),
        )

    set_json-laws :
        (t : Shape) (k : String) (v : El t) (ttl : ℕ) (s : State W)
        → ((set_json client json t k v ttl s).0 ≡ true
            → entry t k (set_json client json t k v ttl s).1 ≡ some v)
          × ((entry t k (set_json client json t k v ttl s).1 ≡ entry t k s)
              ⊎ (entry t k (set_json client json t k v ttl s).1 ≡ some v))
          × ((u : Shape) (j : String)
              → j ≢ k
              → entry u j (set_json client json t k v ttl s).1 ≡ entry u j s)
    unfolding set_json
    set_json-laws t k v ttl s = encoded-laws t k v ttl s (json.marshal t v) (round_trips t v)

    -- Over a client that keeps what Redis documents, and an encoding that round-trips, `RedisStore`
    -- keeps the contract of the cache, where an entry is what the string under its key decodes to.
    pub redis_store-Contract :
        (r : Contract (redis_store client json)) × ((t : Shape) (k : String) (s : State W)
          → r.holds t k s ≡ entry t k s)
    redis_store-Contract = (
      record {
        holds = entry;
        get_hit = get_json-hit;
        get_miss = get_json-miss;
        get_keeps = entry-get_json;
        set_ok = λ t k v ttl s. (set_json-laws t k v ttl s).0;
        set_either = λ t k v ttl s. (set_json-laws t k v ttl s).1;
        set_ne = λ t u k j v ttl s. (set_json-laws t k v ttl s).2 u j;
        delete_ok = delete_ok;
        delete_either = delete_either;
        delete_ne = delete_ne;
        get_del_hit = λ t k s v e. (get_del_json-hit t t k s v e).0;
        get_del_gone = λ t u k s v e. (get_del_json-hit t u k s v e).1;
        get_del_miss = get_del_json-miss;
        get_del_either = get_del_json_either;
        get_del_ne = entry-get_del_json;
      },
      λ t k s. refl,
    )
