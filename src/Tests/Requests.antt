-- ===== src/Tests/Requests.antt =====
-- Requests through the middleware at concrete inputs.
use politburo.Prelude.{
  eq_iff, eq_refl, false, ℕ, ◌+◌, List, String, true, none, some, [], ◌∷◌, ◌==◌, if◌then◌else◌, ◌≡◌,
  refl, arith,
}
use politburo.Auth.{Claims}
use politburo.Http.{Request, Handler, write_json}
use politburo.Middleware.{found, absent}
use politburo.Middleware.Authenticate.{KeyLookup, SessionLookup, authenticate_api}
use politburo.Middleware.Authenticate.Laws.{Guards, authenticate_api-Guards}
use politburo.Middleware.Roles.{require_member, require_staff, require_admin}
use politburo.Middleware.Roles.Laws.{from_rank, require-from_rank}
use politburo.Middleware.RateLimit.{RateLimiter}
use politburo.Middleware.RateLimit.Counted.{IsCounter}
use politburo.Cache.Keys.Laws.{Entry, key_of-injective}
use politburo.Strings.{has_prefix}

abbrev headers : String → String
headers name =
    if name == "Origin" then "https://ui.example" else if name == "X-API-Key" then "k1" else ""

abbrev request : Request
request = record {
  method = "GET";
  path = "/api/v1/game/flights";
  header = headers;
  session_cookie = none;
  remote_addr = "10.0.0.1:80";
  is_tls = true;
  query_token = "";
  claims = none;
}

abbrev key_claims : Claims
key_claims = record {
  pb_user_id = "";
  role = "";
  ds_user_id = "";
  ds_server_id = "";
  pb_server_id = "";
  api_key_present = true;
}

-- the state counts the calls of the lookups
abbrev keys : KeyLookup ℕ
keys r k n = (found key_claims, n + 1)

abbrev no_sessions : SessionLookup ℕ
no_sessions r n = (absent, n + 1)

abbrev greet : Handler ℕ String
greet h r n = write_json h 200 "hello" n

is_api : has_prefix "/api/v1/game/flights" "/api/v1" ≡ true
unfolding has_prefix
is_api = refl

authenticate_api-Guards_example :
    Guards keys
      (some no_sessions)
      {B = String}
      []
      request
      0
      (λ next. authenticate_api (some keys) (some no_sessions) next [] request 0)
authenticate_api-Guards_example =
    authenticate_api-Guards keys (some no_sessions) [] request 0 is_api

key_of-injective_example : Entry.livery "l1" ≡ Entry.livery "l1"
key_of-injective_example = key_of-injective (Entry.livery "l1") (Entry.livery "l1") refl

-- a limiter with a count for each bucket
abbrev counter : RateLimiter (String → ℕ)
counter key ttl f = (some (f key + 1), λ k. if k == key then f key + 1 else f k)

abbrev greet_all : Handler (String → ℕ) String
greet_all h r f = write_json h 200 "hello" f

counter-IsCounter : IsCounter counter
counter-IsCounter = record {
  count = λ key f. f key;
  incr_count = λ key ttl f small. (refl, rw eq_refl refl);
  incr_other = λ key other ttl f ne.
      let apart : (other == key) ≡ false = ground (arith, eq_iff other key) in rw apart refl;
}

abbrev other_request : Request
other_request = record request { remote_addr = "10.0.0.2:80" }

-- three requests of one minute, one of another caller, and one of the next minute
abbrev in_a_while : List (ℕ × Request)
in_a_while =
    (90, request) ∷ (91, other_request) ∷ (92, request) ∷ (119, request) ∷ (120, request) ∷ []

abbrev no_counts : String → ℕ
no_counts key = 0

abbrev staff_request : Request
staff_request = record request { claims = some (record key_claims { role = "staff" }) }

require-from_rank_example :
    (require_member greet [] staff_request 0 ≡ from_rank 1 "member" greet [] staff_request 0)
    × (require_staff greet [] staff_request 0 ≡ from_rank 2 "staff" greet [] staff_request 0)
    × (require_admin greet [] staff_request 0 ≡ from_rank 3 "admin" greet [] staff_request 0)
require-from_rank_example = require-from_rank greet [] staff_request 0
