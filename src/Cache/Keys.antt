-- ===== src/Cache/Keys.antt =====
-- internal/cache/keys.go
pub mod Laws
use politburo.Prelude.{String}
use Prim.Native.String.{◌++◌}

abbrev pub prefix_game : String
prefix_game = "game:"

abbrev pub prefix_game_sessions : String
prefix_game_sessions = prefix_game ++ "sessions:"

abbrev pub key_active_sessions : String
key_active_sessions = prefix_game_sessions ++ "active"

abbrev pub key_session_names : String
key_session_names = prefix_game_sessions ++ "names"

abbrev pub prefix_game_flights : String
prefix_game_flights = prefix_game ++ "flights:"

abbrev pub prefix_game_flights_active : String
prefix_game_flights_active = prefix_game_flights ++ "active:"

abbrev pub prefix_game_flights_history : String
prefix_game_flights_history = prefix_game_flights ++ "history:"

abbrev pub prefix_game_livery : String
prefix_game_livery = prefix_game ++ "livery:"

abbrev pub prefix_auth : String
prefix_auth = "auth:"

abbrev pub prefix_api_key_status : String
prefix_api_key_status = prefix_auth ++ "api_key:"

abbrev pub prefix_login_ticket : String
prefix_login_ticket = prefix_auth ++ "login_ticket:"

abbrev pub prefix_session : String
prefix_session = "session:"

unfoldable pub key_api_key_status : String → String
key_api_key_status api_key = prefix_api_key_status ++ api_key

unfoldable pub key_login_ticket : String → String
key_login_ticket ticket_id = prefix_login_ticket ++ ticket_id

unfoldable pub key_session : String → String
key_session session_id = prefix_session ++ session_id

unfoldable pub key_active_flights : String → String
key_active_flights normalized_name = prefix_game_flights_active ++ normalized_name

unfoldable pub key_flight_history : String → String
key_flight_history flight_id = prefix_game_flights_history ++ flight_id

unfoldable pub key_livery : String → String
key_livery livery_id = prefix_game_livery ++ livery_id
