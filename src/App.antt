-- ===== src/App.antt =====
-- internal/app/app.go, with `OpenRedis` of internal/cache/store.go and `Open` of
-- internal/database/database.go: what the program opens when it starts, and closes.
pub mod Handles
use politburo.Prelude.{
  ℕ, ◌+◌, ◌-◌, String, Bool, true, false, Option, none, some, not, if◌then◌else◌,
}
use politburo.Scheduler.{
  Scheduler, new, stop, Registered, registered, nil_job, duplicate_name, bad_schedule,
}
use politburo.Scheduler.Jobs.{register_jobs}

-- how many connections to the database and to Redis are open
pub record State : Type 0 where
  pub databases : ℕ
  pub redises : ℕ

-- How the calls of other packages end: `sql.Open`, the two pings, the parsing of the templates, the
-- making of the client, and the parsing of the schedules.
pub record Calls : Type 0 where
  pub opens_database : Bool
  pub pings_database : Bool
  pub pings_redis : Bool
  pub parses_templates : Bool
  pub makes_client : Bool
  pub parses : String → Bool

abbrev pub add_database : State → State
add_database s = record s { databases = s.databases + 1 }

abbrev pub add_redis : State → State
add_redis s = record s { redises = s.redises + 1 }

-- `db.Close` and `client.Close`; their errors are dropped or logged
abbrev pub close_database : State → State
close_database s = record s { databases = s.databases - 1 }

abbrev pub close_redis : State → State
close_redis s = record s { redises = s.redises - 1 }

-- The app: its scheduler, and whether `closeOnce` was used.
pub record App : Type 0 where
  pub scheduler : Scheduler
  pub closed : Bool

module _ (calls : Calls) where
  -- `database.Open`; `false` is an error
  unfoldable pub open_database : State → Bool × State
  open_database s =
      if not calls.opens_database
      then (false, s)
      else if not calls.pings_database
      then (false, close_database (add_database s))
      else (true, add_database s)

  -- `cache.OpenRedis`
  unfoldable pub open_redis : State → Bool × State
  open_redis s =
      if not calls.pings_redis then (false, close_redis (add_redis s)) else (true, add_redis s)

  abbrev pub close_both : State → State
  close_both s = close_database (close_redis s)

  abbrev pub with_jobs : Registered → State → Option App × State
  with_jobs (registered jobs) s = (some (record { scheduler = jobs; closed = false }), s)
  with_jobs nil_job s = (none, close_both s)
  with_jobs duplicate_name s = (none, close_both s)
  with_jobs bad_schedule s = (none, close_both s)

  abbrev pub with_redis : Bool × State → Option App × State
  with_redis (false, s) = (none, close_database s)
  with_redis (true, s) =
      if not calls.parses_templates
      then (none, close_both s)
      else if not calls.makes_client
      then (none, close_both s)
      else with_jobs (register_jobs calls.parses new) s

  abbrev pub with_database : Bool × State → Option App × State
  with_database (false, s) = (none, s)
  with_database (true, s) = with_redis (open_redis s)

  -- `New`; `none` is an error
  unfoldable pub new_app : State → Option App × State
  unfolding open_database
  new_app s = with_database (open_database s)

-- `Close`
unfoldable pub close : App → State → App × State
close a s =
    if a.closed
    then (a, s)
    else (record a { scheduler = stop a.scheduler; closed = true }, close_database (close_redis s))
