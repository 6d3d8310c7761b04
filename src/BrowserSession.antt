-- ===== src/BrowserSession.antt =====
-- internal/session/session.go: the session of a browser.
pub mod Cookie
pub mod Service
use politburo.Prelude.{ℕ, ◌*◌, String, Bool, false, ltb}
use politburo.Upstream.{Time}
use politburo.Auth.{Claims}

-- seven days, in nanoseconds
abbrev pub ttl : ℕ
ttl = 7 * 24 * 3600 * 1000000000

pub record Session : Type 0 where
  pub session_id : String
  pub user_id : String
  pub discord_id : String
  pub discord_server_id : String
  pub username : String
  pub created_at : Time
  pub expires_at : Time

-- `Session.Claims`
abbrev pub claims : Session → Claims
claims s = record {
  pb_user_id = s.user_id;
  role = "";
  ds_user_id = s.discord_id;
  ds_server_id = s.discord_server_id;
  pb_server_id = "";
  api_key_present = false;
}

-- `now.After(s.ExpiresAt)`
abbrev pub expired : Session → Time → Bool
expired s now = ltb s.expires_at now
