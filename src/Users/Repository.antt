-- ===== src/Users/Repository.antt =====
-- internal/users/repository.go: `GetByDiscordID`. What the query returns is an argument: `row` for
-- one row, `no_rows` for `sql.ErrNoRows`, and `query_failed` for any other error.
use politburo.Prelude.{String, Bool, true, false, Option, none, some}
use politburo.Upstream.{Time}
use politburo.Users.{User}

-- `sql.NullString`
pub record NullString : Type 0 where
  pub string : String
  pub valid : Bool

-- the columns of `getByDiscordIDQuery`
pub record Columns : Type 0 where
  pub id : String
  pub discord_id : String
  pub if_community_id : NullString
  pub if_api_id : NullString
  pub is_active : Bool
  pub username : NullString
  pub created_at : Time
  pub updated_at : Time
  pub otp : NullString

pub data Scan : Type 0 where
  row : Columns → Scan
  no_rows : Scan
  query_failed : Scan

abbrev valid_string : Bool → String → Option String
valid_string true s = some s
valid_string false s = none

abbrev pub null_string : NullString → Option String
null_string value = valid_string value.valid value.string

abbrev pub user_of : Columns → User
user_of c = record {
  id = c.id;
  discord_id = c.discord_id;
  if_community_id = null_string c.if_community_id;
  if_api_id = null_string c.if_api_id;
  is_active = c.is_active;
  username = null_string c.username;
  created_at = c.created_at;
  updated_at = c.updated_at;
  otp = null_string c.otp;
}

-- `some none` is no user, `none` an error
abbrev pub of_scan : Scan → Option (Option User)
of_scan (row c) = some (some (user_of c))
of_scan no_rows = some none
of_scan query_failed = none

-- the type is that of the lookup of a signed link
abbrev pub get_by_discord_id :
    {W : Type 0} → (String → W → Scan × W) → String → W → Option (Option User) × W
get_by_discord_id query id w = let (scan, w') = query id w in (of_scan scan, w')
