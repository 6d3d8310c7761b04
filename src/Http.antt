-- ===== src/Http.antt =====
-- What the handlers and the middleware take from `net/http`: a request, a response and a handler.
use politburo.Prelude.{ℕ, String, Bool, Option, List, [], ◌∷◌, ◌++◌}
use politburo.Auth.{Claims}

-- `header` is `Header.Get`, `""` for a header that is not there. `session_cookie` is the value of
-- the cookie `session_id`, and `claims` what the context of the request holds.
pub record Request : Type 0 where
  pub method : String
  pub path : String
  pub header : String → String
  pub session_cookie : Option String
  pub remote_addr : String
  pub is_tls : Bool
  pub query_token : String
  pub claims : Option Claims

-- `r.WithContext(auth.SetClaims(r.Context(), claims))`
abbrev pub with_claims : Request → Claims → Request
with_claims r c = record r { claims = Option.some c }

abbrev pub Headers : Type 0
Headers = List (String × String)

-- The body of a response: the error object of `response.WriteError`, the text of `http.Error`, or
-- what the handler writes.
pub data Body (B : Type 0) : Type 0 where
  empty : Body B
  text : String → Body B
  failure : String → String → Body B
  payload : B → Body B

pub record Response (B : Type 0) : Type 0 where
  pub status : ℕ
  pub headers : Headers
  pub body : Body B

-- A handler gets the headers set so far and the state of the world.
abbrev pub Handler : Type 0 → Type 0 → Type 0
Handler W B = Headers → Request → W → Response B × W

abbrev pub json_header : Headers → Headers
json_header h = h ++ ("Content-Type", "application/json") ∷ []

module _ {W B : Type 0} where
  -- `response.WriteJSON`
  abbrev pub write_json : Headers → ℕ → B → W → Response B × W
  write_json h status body w =
      (record { status = status; headers = json_header h; body = payload body }, w)

  -- `response.WriteError`
  abbrev pub write_error : Headers → ℕ → String → String → W → Response B × W
  write_error h status code message w =
      (record { status = status; headers = json_header h; body = failure code message }, w)

  -- `http.Error`
  abbrev pub http_error : Headers → String → ℕ → W → Response B × W
  http_error h message status w = (
    record {
      status = status;
      headers =
          h
          ++ ("Content-Type", "text/plain; charset=utf-8")
            ∷ ("X-Content-Type-Options", "nosniff")
            ∷ [];
      body = text message;
    },
    w,
  )

  -- `http.Redirect` at status 303; the note in its body is not modelled
  abbrev pub redirect : Headers → String → W → Response B × W
  redirect h target w =
      (record { status = 303; headers = h ++ ("Location", target) ∷ []; body = empty }, w)
