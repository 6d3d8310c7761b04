-- ===== src/Tests/Cached.antt =====
-- Sessions, tickets and API keys over the Redis in memory.
use politburo.Prelude.{
  ◌+◌, ◌+◌, String, true, none, some, [], ◌∷◌, ltb, if◌then◌else◌, ◌≡◌, ◌≢◌, ◌⊎◌, inl, inr, refl,
}
use politburo.Auth.{LoginTicket}
use politburo.Auth.Tickets.{
  Bytes, encode_hex, encrypt_ticket_id, decrypt_ticket_id, issue, consumed, invalid, unavailable,
  consume,
}
use politburo.Auth.Tickets.Laws.{issue-consume, consume_once}
use politburo.Http.{Request}
use politburo.Middleware.{found, absent, failed}
use politburo.BrowserSession.{claims, ttl}
use politburo.BrowserSession.Cookie.{session_id_from_request}
use politburo.BrowserSession.Service
use politburo.BrowserSession.Service.{CreateInput, new_session}
use politburo.BrowserSession.Service.Laws.{create-lookup}
use politburo.ApiKeys.Lookup as KeyLookup
use politburo.ApiKeys.Lookup.{Row, row, Database}
use politburo.ApiKeys.Lookup.Laws.{answer_for, IsFresh, lookup-answer_for}
use politburo.Strings.{is_space, trim_left, trim_right, trim_space}
use politburo.Cache.{Shape}
use politburo.Cache.Keys.{key_session, key_login_ticket, key_api_key_status}
use politburo.Cache.Contract.{Contract}
use politburo.Cache.Redis.{State, get_json, get_del_json, set_json, delete, redis_store}
use politburo.Cache.Redis.Laws.{entry, redis_store-Contract}
use politburo.Cache.Redis.Counted.{
  read_outcome, write_outcome, IsCounted, inserts_of, redis_store-IsCounted,
}
use politburo.Tests.Unary.{unary, unary-IsCipher, write_bytes, read_bytes}
use politburo.Tests.Memory.{
  json, round_trips, Server, memory, memory-IsRedis, cache, cache-Contract, empty_cache,
  holds-empty_cache,
}

redis_store-Contract_example :
    (r : Contract (redis_store memory json)) × ((t : Shape) (k : String) (s : State Server)
      → r.holds t k s ≡ entry memory json memory-IsRedis round_trips t k s)
redis_store-Contract_example = redis_store-Contract memory json memory-IsRedis round_trips

abbrev input : CreateInput
input = record { user_id = "u1"; discord_id = "d1"; discord_server_id = "g1"; username = "Ann" }

abbrev request : Request
request = record {
  method = "GET";
  path = "/dashboard";
  header = λ name. "";
  session_cookie = some "c1";
  remote_addr = "10.0.0.1:80";
  is_tls = true;
  query_token = "";
  claims = none;
}

abbrev after_create : State Server
after_create = (Service.create cache "c1" 100 input empty_cache).1

created_once :
    Service.create cache "c1" 100 input empty_cache
    ≡ (some (new_session "c1" 100 input), after_create)
unfolding Service.create set_json
created_once = refl

reads_back :
    (Service.lookup cache 200 request after_create).0 ≡ found (claims (new_session "c1" 100 input))
unfolding Service.create Service.get Service.lookup session_id_from_request set_json get_json
    trim_space trim_right trim_left is_space key_session
reads_back = refl

carried : session_id_from_request request ≡ "c1"
unfolding session_id_from_request trim_space trim_right trim_left is_space
carried = refl

c1≢blank : ◌≢◌ {A = String} "c1" ""
c1≢blank e = cc

create-lookup_example :
    ((Service.lookup cache 200 request after_create).0 ≡ failed)
    ⊎ ((Service.lookup cache 200 request after_create).0
        ≡ (if ltb (100 + ttl) 200 then absent else found (claims (new_session "c1" 100 input))))
create-lookup_example =
    create-lookup cache cache-Contract "c1" 100 200 input (new_session "c1" 100 input) request
      empty_cache after_create after_create created_once refl carried c1≢blank

deleted : (Service.delete cache (session_id_from_request request) after_create).0 ≡ true
unfolding Service.delete session_id_from_request delete trim_space trim_right trim_left is_space
deleted = refl

c12≢c1 : ◌≢◌ {A = String} "c12" "c1"
c12≢c1 e = cc

abbrev ticket : LoginTicket
ticket = record {
  user_id = "u1";
  discord_user_id = "d1";
  discord_server_id = "g1";
  username = "Ann";
  redirect_to = "/dashboard";
}

abbrev secret : Bytes
secret = []

abbrev ticket_id : Bytes
ticket_id = 1 ∷ []

abbrev token : String
token = "bab"

abbrev after_issue : State Server
after_issue = (issue unary cache secret (some ticket_id) (some (0 ∷ [])) ticket empty_cache).1

issued_once :
    issue unary cache secret (some ticket_id) (some (0 ∷ [])) ticket empty_cache
    ≡ (some token, after_issue)
unfolding issue encrypt_ticket_id set_json write_bytes
issued_once = refl

issue-consume_example :
    ((consume unary cache secret token after_issue).0 ≡ consumed ticket)
    ⊎ ((consume unary cache secret token after_issue).0 ≡ unavailable)
issue-consume_example =
    issue-consume unary cache cache-Contract unary-IsCipher secret ticket_id (0 ∷ []) ticket token
      empty_cache after_issue after_issue refl issued_once refl

first_use : (consume unary cache secret token after_issue).0 ≡ consumed ticket
unfolding issue consume encrypt_ticket_id decrypt_ticket_id set_json get_del_json write_bytes
    read_bytes encode_hex key_login_ticket
first_use = refl

consume_once_example :
    ((consume unary cache secret token (consume unary cache secret token after_issue).1).0
      ≡ invalid)
    ⊎ ((consume unary cache secret token (consume unary cache secret token after_issue).1).0
        ≡ unavailable)
consume_once_example =
    consume_once unary cache cache-Contract secret token ticket after_issue
      (consume unary cache secret token after_issue).1 first_use (λ id at. inr refl)

-- a database with one key, that is active
abbrev database : Database (State Server)
database key w = (row true, w)

lookup-answer_for_example :
    ((KeyLookup.lookup cache database request "k1" empty_cache).0 ≡ answer_for (row true))
    × IsFresh cache cache-Contract database "k1"
        (row true)
        (λ w. refl)
        (λ w. refl)
        (KeyLookup.lookup cache database request "k1" empty_cache).1
lookup-answer_for_example =
    lookup-answer_for cache cache-Contract database "k1" (row true) (λ w. refl) (λ w. refl) request
      empty_cache (inl (holds-empty_cache Shape.status_shape (key_api_key_status "k1")))

redis_store-IsCounted_example :
    IsCounted "get"
      (read_outcome (get_json memory json Shape.ticket_shape "k" empty_cache).0)
      0
      empty_cache.metrics
      (get_json memory json Shape.ticket_shape "k" empty_cache).1.metrics
    × IsCounted "getdel"
        (read_outcome (get_del_json memory json Shape.ticket_shape "k" empty_cache).0)
        0
        empty_cache.metrics
        (get_del_json memory json Shape.ticket_shape "k" empty_cache).1.metrics
    × IsCounted "delete"
        (write_outcome (delete memory json "k" empty_cache).0)
        0
        empty_cache.metrics
        (delete memory json "k" empty_cache).1.metrics
    × IsCounted "set"
        (write_outcome (set_json memory json Shape.ticket_shape "k" ticket 60 empty_cache).0)
        (inserts_of memory json
          (set_json memory json Shape.ticket_shape "k" ticket 60 empty_cache).0)
        empty_cache.metrics
        (set_json memory json Shape.ticket_shape "k" ticket 60 empty_cache).1.metrics
redis_store-IsCounted_example =
    redis_store-IsCounted memory json Shape.ticket_shape "k" ticket 60 empty_cache
