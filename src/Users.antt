-- ===== src/Users.antt =====
-- internal/users/user.go: a row of the table of users.
pub mod Repository
use politburo.Prelude.{String, Bool, Option, none, some}
use politburo.Upstream.{Time}

pub record User : Type 0 where
  pub id : String
  pub discord_id : String
  pub if_community_id : Option String
  pub if_api_id : Option String
  pub is_active : Bool
  pub username : Option String
  pub created_at : Time
  pub updated_at : Time
  pub otp : Option String

abbrev or_blank : Option String → String
or_blank none = ""
or_blank (some s) = s

unfoldable pub display_name : User → String
display_name u = or_blank u.username
