-- ===== src/Api/Sessions.antt =====
-- internal/transport/http/api/gamesessions/handler.go
pub mod Shown
use politburo.Prelude.{Bool, false, Option, none, some, [], ◌∷◌, map, eqb, if◌then◌else◌}
use politburo.Upstream
use politburo.GameSessions.{
  Snapshot, result, last_cached, history, to_list, without_history, refresh_interval_minutes,
}
use politburo.Cache.{Shape, Reply, hit, miss, broken, Store}
use politburo.Cache.Keys.{key_active_sessions}
use politburo.Http.{Headers, Response, write_json, write_error}
use politburo.Api.{Choice, Data}

abbrev pub Body : Type 0
Body = Data Upstream.Session Snapshot

-- `history != nil && *history`
abbrev pub is_asked : Option Bool → Bool
is_asked none = false
is_asked (some b) = b

abbrev pub body_of : Snapshot → Bool → Body
body_of s include_history = record {
  available_filters =
      record {
        name = "history";
        type = "boolean";
        desc = "Show last 50 records";
        current = Choice.flag include_history;
        default = Choice.flag false;
        options = [];
      }
      ∷ [];
  result = result s;
  history = some (if include_history then map without_history (to_list (history s)) else []);
  meta = record { last_cached = last_cached s; refresh_interval_mins = refresh_interval_minutes };
  pagination = none;
}

module _ {W : Type 0} (store : Store W) where
  abbrev pub respond : Headers → Option Bool → Reply Snapshot × W → Response Body × W
  respond h asked (hit s, w) =
      if eqb (last_cached s) 0
      then write_error h 500 "ACTIVE_SESSIONS_CACHE_UNAVAILABLE"
          "active sessions cache is unavailable" w
      else write_json h 200 (body_of s (is_asked asked)) w
  respond h asked (miss, w) =
      write_error h 503 "ACTIVE_SESSIONS_CACHE_UNAVAILABLE" "active sessions cache is unavailable" w
  respond h asked (broken, w) =
      write_error h 500 "ACTIVE_SESSIONS_CACHE_UNAVAILABLE" "active sessions cache is unavailable" w

  unfoldable pub get_active_sessions : Headers → Option Bool → W → Response Body × W
  get_active_sessions h asked w =
      respond h asked (store.get_json Shape.sessions_shape key_active_sessions w)
