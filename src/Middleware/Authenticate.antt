-- ===== src/Middleware/Authenticate.antt =====
-- middleware/auth.go
pub mod Laws
use politburo.Prelude.{String, Bool, true, Option, none, some, not, ◌==◌, ◌&&◌, ◌||◌, if◌then◌else◌}
use politburo.Strings.{trim_space, has_prefix}
use politburo.Auth.{Claims}
use politburo.Http.{Request, Response, Headers, Handler, with_claims, write_error}
use politburo.Middleware.{Lookup, found, absent, failed}

abbrev pub api_key_header : String
api_key_header = "X-API-Key"

abbrev pub discord_user_id_header : String
discord_user_id_header = "X-Discord-User-Id"

abbrev pub discord_server_id_header : String
discord_server_id_header = "X-Discord-Server-Id"

-- `APIKeyLookup` and `SessionLookup`
abbrev pub KeyLookup : Type 0 → Type 0
KeyLookup W = Request → String → W → Lookup × W

abbrev pub SessionLookup : Type 0 → Type 0
SessionLookup W = Request → W → Lookup × W

unfoldable pub is_game_api_path : String → Bool
is_game_api_path path = has_prefix path "/api/v1/game/"

-- the claims of a request with an API key
abbrev pub key_claims : Request → Claims → Claims
key_claims r claims = record claims {
  api_key_present = true;
  ds_user_id = trim_space (r.header discord_user_id_header);
  ds_server_id = trim_space (r.header discord_server_id_header);
}

module _ {W B : Type 0} where
  abbrev pub after_key : Handler W B → Headers → Request → Lookup × W → Response B × W
  after_key next h r (failed, w) =
      write_error h 500 "AUTH_LOOKUP_FAILED" "authentication lookup failed" w
  after_key next h r (absent, w) = write_error h 401 "UNAUTHORIZED" "Unauthorized" w
  after_key next h r (found claims, w) = next h (with_claims r (key_claims r claims)) w

  -- from `apiKey := …` on
  unfoldable pub with_key : KeyLookup W → Handler W B → Handler W B
  with_key lookup next h r w =
      let api_key = trim_space (r.header api_key_header) in
      if api_key == ""
      then write_error h 401 "UNAUTHORIZED" "Unauthorized" w
      else after_key next h r (lookup r api_key w)

  abbrev pub after_session :
      KeyLookup W → Handler W B → Headers → Request → Lookup × W → Response B × W
  after_session lookup next h r (failed, w) =
      write_error h 500 "AUTH_LOOKUP_FAILED" "authentication lookup failed" w
  after_session lookup next h r (absent, w) = with_key lookup next h r w
  after_session lookup next h r (found claims, w) = next h (with_claims r claims) w

  abbrev pub try_session : Option (SessionLookup W) → KeyLookup W → Handler W B → Handler W B
  try_session none lookup next h r w = with_key lookup next h r w
  try_session (some sessions) lookup next h r w =
      if is_game_api_path r.path
      then after_session lookup next h r (sessions r w)
      else with_key lookup next h r w

  -- A nil lookup is `none`.
  unfoldable pub authenticate_api :
      Option (KeyLookup W) → Option (SessionLookup W) → Handler W B → Handler W B
  authenticate_api none sessions next h r w = next h r w
  authenticate_api (some lookup) sessions next h r w =
      if not (has_prefix r.path "/api/v1")
      then next h r w
      else try_session sessions lookup next h r w

  -- `APIKeyAuth`
  unfoldable pub api_key_auth : Option (KeyLookup W) → Handler W B → Handler W B
  api_key_auth lookup next = authenticate_api lookup none next

  unfoldable pub require_discord_bot_context : Handler W B → Handler W B
  require_discord_bot_context next h r w =
      let has_user = not (trim_space (r.header discord_user_id_header) == "") in
      let has_server = not (trim_space (r.header discord_server_id_header) == "") in
      if not has_user || not has_server
      then write_error h 403 "MISSING_DISCORD_CONTEXT"
          "Missing required Discord context headers: X-Discord-User-Id and X-Discord-Server-Id" w
      else next h r w
