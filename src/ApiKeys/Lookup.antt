-- ===== src/ApiKeys/Lookup.antt =====
-- internal/apikeys/repository.go and lookup.go
pub mod Laws
pub mod Active
use politburo.Prelude.{ℕ, ◌*◌, String, Bool, true, false, ◌&&◌, Option, none, some, if◌then◌else◌}
use politburo.Auth.{Claims}
use politburo.Http.{Request}
use politburo.Middleware
use politburo.Middleware.{found, absent, failed}
use politburo.Cache.{Shape, Reply, hit, miss, broken, Store}
use politburo.Cache.Keys.{key_api_key_status}
use politburo.ApiKeys.{StatusCache}

-- a minute, in nanoseconds
abbrev pub cache_ttl : ℕ
cache_ttl = 60 * 1000000000

-- what `QueryRowContext(…).Scan(&active)` gives: the status of the row, `sql.ErrNoRows`, or another
-- error
pub data Row : Type 0 where
  row : Bool → Row
  no_rows : Row
  row_failed : Row

-- `Repository.Active`: active and found, or an error
unfoldable pub active_of : Row → Option StatusCache
active_of (row active) = some (record { active = active; found = true })
active_of no_rows = some (record { active = false; found = false })
active_of row_failed = none

-- the query for the status of a key
abbrev pub Database : Type 0 → Type 0
Database W = String → W → Row × W

abbrev pub usable : StatusCache → Bool
usable status = status.found && status.active

abbrev pub key_only : Claims
key_only = record {
  pb_user_id = "";
  role = "";
  ds_user_id = "";
  ds_server_id = "";
  pb_server_id = "";
  api_key_present = true;
}

module _ {W : Type 0} (store : Store W) (db : Database W) where
  -- the error of the write is dropped
  abbrev pub remembered : String → Option StatusCache × W → Option Bool × W
  remembered api_key (none, w) = (none, w)
  remembered api_key (some status, w) = (
    some (usable status),
    (store.set_json Shape.status_shape (key_api_key_status api_key) status cache_ttl w).1,
  )

  abbrev pub from_repository : String → W → Option StatusCache × W
  from_repository api_key w = (active_of (db api_key w).0, (db api_key w).1)

  -- a miss and every other error of the cache go on to the database
  abbrev pub or_repository : String → Reply StatusCache × W → Option Bool × W
  or_repository api_key (hit status, w) = (some (usable status), w)
  or_repository api_key (miss, w) = remembered api_key (from_repository api_key w)
  or_repository api_key (broken, w) = remembered api_key (from_repository api_key w)

  unfoldable pub active : String → W → Option Bool × W
  active api_key w =
      or_repository api_key (store.get_json Shape.status_shape (key_api_key_status api_key) w)

  abbrev pub as_lookup : Option Bool × W → Middleware.Lookup × W
  as_lookup (none, w) = (failed, w)
  as_lookup (some false, w) = (absent, w)
  as_lookup (some true, w) = (found key_only, w)

  unfoldable pub lookup : Request → String → W → Middleware.Lookup × W
  lookup r api_key w = as_lookup (active api_key w)
