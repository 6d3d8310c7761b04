-- ===== src/Auth.antt =====
-- internal/auth: the identity attached to a request, and the ticket behind a signed link.
pub mod Url
pub mod Tickets
use politburo.Prelude.{ℕ, ◌*◌, String, Bool, ◌==◌, ◌||◌}

pub record Claims : Type 0 where
  pub pb_user_id : String
  pub role : String
  pub ds_user_id : String
  pub ds_server_id : String
  pub pb_server_id : String
  pub api_key_present : Bool

unfoldable pub is_member : Claims → Bool
is_member c = c.role == "pilot" || c.role == "staff" || c.role == "admin"

unfoldable pub is_staff : Claims → Bool
is_staff c = c.role == "staff" || c.role == "admin"

unfoldable pub is_admin : Claims → Bool
is_admin c = c.role == "admin"

-- ten minutes, in nanoseconds
abbrev pub ticket_ttl : ℕ
ticket_ttl = 10 * 60 * 1000000000

pub record LoginTicket : Type 0 where
  pub user_id : String
  pub discord_user_id : String
  pub discord_server_id : String
  pub username : String
  pub redirect_to : String
