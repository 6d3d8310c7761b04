-- ===== src/Tests/Memory.antt =====
-- A Redis in memory, with values in place of their JSON text.
use politburo.Prelude.{
  String, true, Option, none, some, List, [], ◌==◌, if◌then◌else◌, ◌≡◌, ◌≢◌, refl, subst, arith,
  eq_iff, eq_refl, eq_of_some, inl, inr,
}
use politburo.Flights
use politburo.GameSessions
use politburo.Auth.{LoginTicket}
use politburo.BrowserSession
use politburo.ApiKeys.{StatusCache}
use politburo.Cache.{Shape, El, Store}
use politburo.Cache.Contract.{Contract}
use politburo.Cache.Redis.{Got, value, redis_nil, RedisClient, Json, State, redis_store}
use politburo.Cache.Redis.Laws.{IsRedis, RoundTrips, redis_store-Contract}

pub data Doc : Type 0 where
  sessions_doc : GameSessions.Snapshot → Doc
  names_doc : List String → Doc
  flights_doc : Flights.Snapshot → Doc
  history_doc : Flights.HistorySnapshot → Doc
  livery_doc : GameSessions.Livery → Doc
  status_doc : StatusCache → Doc
  ticket_doc : LoginTicket → Doc
  session_doc : BrowserSession.Session → Doc

abbrev doc_of : (t : Shape) → El t → Doc
doc_of Shape.sessions_shape v = sessions_doc v
doc_of Shape.names_shape v = names_doc v
doc_of Shape.flights_shape v = flights_doc v
doc_of Shape.history_shape v = history_doc v
doc_of Shape.livery_shape v = livery_doc v
doc_of Shape.status_shape v = status_doc v
doc_of Shape.ticket_shape v = ticket_doc v
doc_of Shape.session_shape v = session_doc v

abbrev read_doc : (t : Shape) → Doc → Option (El t)
read_doc Shape.sessions_shape (sessions_doc v) = some v
read_doc Shape.names_shape (names_doc v) = some v
read_doc Shape.flights_shape (flights_doc v) = some v
read_doc Shape.history_shape (history_doc v) = some v
read_doc Shape.livery_shape (livery_doc v) = some v
read_doc Shape.status_shape (status_doc v) = some v
read_doc Shape.ticket_shape (ticket_doc v) = some v
read_doc Shape.session_shape (session_doc v) = some v
read_doc t d = none

read_doc-doc_of : (t : Shape) (v : El t) → read_doc t (doc_of t v) ≡ some v
read_doc-doc_of Shape.sessions_shape v = refl
read_doc-doc_of Shape.names_shape v = refl
read_doc-doc_of Shape.flights_shape v = refl
read_doc-doc_of Shape.history_shape v = refl
read_doc-doc_of Shape.livery_shape v = refl
read_doc-doc_of Shape.status_shape v = refl
read_doc-doc_of Shape.ticket_shape v = refl
read_doc-doc_of Shape.session_shape v = refl

abbrev pub json : Json Doc
json = record { marshal = λ t v. some (doc_of t v); unmarshal = read_doc; size = λ d. 1 }

pub round_trips : RoundTrips json
round_trips t v d e = subst (λ d. read_doc t d ≡ some v) (eq_of_some e) (read_doc-doc_of t v)

abbrev pub Server : Type 0
Server = String → Option Doc

abbrev got : Option Doc → Got Doc
got none = redis_nil
got (some d) = value d

abbrev without : String → Server → Server
without k w = λ j. if j == k then none else w j

abbrev with_doc : String → Doc → Server → Server
with_doc k d w = λ j. if j == k then some d else w j

abbrev pub memory : RedisClient Doc Server
memory = record {
  get = λ k w. (got (w k), w);
  get_del = λ k w. (got (w k), without k w);
  set = λ k d ttl w. (true, with_doc k d w);
  del = λ k w. (true, without k w);
  ping = λ w. (true, w);
}

got-value : (o : Option Doc) (d : Doc) → got o ≡ value d → o ≡ some d
got-value none d e = cc
got-value (some x) d e = cc

got-nil : (o : Option Doc) → got o ≡ redis_nil → o ≡ none
got-nil none e = refl
got-nil (some d) e = cc

without-ne : (k j : String) (w : Server) → j ≢ k → without k w j ≡ w j
without-ne k j w ne = ground (arith, eq_iff j k)

with_doc-ne : (k j : String) (d : Doc) (w : Server) → j ≢ k → with_doc k d w j ≡ w j
with_doc-ne k j d w ne = ground (arith, eq_iff j k)

with_doc-eq : (k : String) (d : Doc) (w : Server) → with_doc k d w k ≡ some d
with_doc-eq k d w = rw (eq_refl k)

without-eq : (k : String) (w : Server) → without k w k ≡ none
without-eq k w = rw (eq_refl k)

pub memory-IsRedis : IsRedis memory
memory-IsRedis = record {
  at = λ k w. w k;
  get_value = λ k w d e. got-value (w k) d e;
  get_nil = λ k w e. got-nil (w k) e;
  get_keeps = λ k j w. refl;
  set_ok = λ k d ttl w e. with_doc-eq k d w;
  set_either = λ k d ttl w. inr (with_doc-eq k d w);
  set_ne = λ k j d ttl w ne. with_doc-ne k j d w ne;
  del_ok = λ k w e. without-eq k w;
  del_either = λ k w. inl (without-eq k w);
  del_ne = λ k j w ne. without-ne k j w ne;
  get_del_value = λ k w d e. got-value (w k) d e;
  get_del_gone = λ k w d e. without-eq k w;
  get_del_nil = λ k w e. got-nil (w k) e;
  get_del_either = λ k w. inl (without-eq k w);
  get_del_ne = λ k j w ne. without-ne k j w ne;
}

abbrev pub cache : Store (State Server)
cache = redis_store memory json

abbrev pub cache-Contract : Contract cache
cache-Contract = (redis_store-Contract memory json memory-IsRedis round_trips).0

abbrev pub empty_cache : State Server
empty_cache = record {
  server = λ k. none;
  metrics = record { cache_operations = []; cache_payload_bytes = []; cache_inserts = 0 };
}

pub holds-empty_cache : (t : Shape) (k : String) → cache-Contract.holds t k empty_cache ≡ none
unfolding memory-IsRedis
holds-empty_cache t k =
    (redis_store-Contract memory json memory-IsRedis round_trips).1 t k empty_cache
