-- ===== src/Tests/Starts.antt =====
-- A start of the program that succeeds, a call of the API that is refused, and a number.
use politburo.Prelude.{[], true, false, Option, none, some, ◌≡◌, ◌⊎◌, refl}
use politburo.Upstream.Client.{Generated}
use politburo.Jobs.{job_failed}
use politburo.Tests.Refreshes.{whole, server}
use politburo.Jobs.Flights.{refresh_session}
use politburo.Jobs.Accepted.{
  flights_client, IsAccepted, refresh_sessions, refresh_liveries, run-IsAccepted,
}
use politburo.Scheduler.{new, register, stop}
use politburo.Scheduler.Jobs.{register_jobs}
use politburo.App.{State, Calls, App, open_database, open_redis, new_app, close}
use politburo.App.Handles.{new_app-close}
use politburo.Main.{interrupted, main}
use politburo.Main.Exits.{IsExit, main-IsExit}
use politburo.Cache.Redis
use politburo.Tests.Configs.{sys}
use politburo.Tests.Samples.{same_char}
use politburo.Tests.Memory.{Server, cache, empty_cache}

abbrev calls : Calls
calls = record {
  opens_database = true;
  pings_database = true;
  pings_redis = true;
  parses_templates = true;
  makes_client = true;
  parses = λ schedule. true;
}

abbrev nothing_open : State
nothing_open = record { databases = 0; redises = 0 }

abbrev one_open : State
one_open = record { databases = 1; redises = 1 }

abbrev app_of : Option App → App
app_of none = record { scheduler = new; closed = false }
app_of (some a) = a

abbrev app : App
app = app_of (new_app calls nothing_open).0

was_started : new_app calls nothing_open ≡ (some app, one_open)
unfolding new_app open_database open_redis register_jobs register
was_started = refl

new_app-close_example :
    ((close app one_open).1 ≡ nothing_open)
    × ((close app one_open).0.scheduler ≡ stop app.scheduler)
    × (close (close app one_open).0 (close app one_open).1 ≡ close app one_open)
new_app-close_example = new_app-close calls nothing_open app one_open was_started

main-IsExit_example :
    IsExit sys calls true
      (interrupted true)
      nothing_open
      (main sys calls true (interrupted true) nothing_open)
main-IsExit_example = main-IsExit sys calls true (interrupted true) nothing_open

-- an API that answers every call with an error object
abbrev refusing : Generated (Redis.State Server)
refusing = record {
  get_sessions = λ w. (some (record { status = 401; json_200 = none; json_default = some 4 }), w);
  get_session_flights = λ id w. (none, w);
  get_aircraft_liveries = λ w. (none, w);
}

run-IsAccepted_example :
    (IsAccepted (refusing.get_sessions empty_cache).0
      ⊎ (refresh_sessions cache refusing same_char 5 empty_cache ≡ (job_failed, empty_cache)))
    × (IsAccepted (refusing.get_aircraft_liveries empty_cache).0
        ⊎ (refresh_liveries cache refusing empty_cache ≡ (job_failed, empty_cache)))
    × (IsAccepted (refusing.get_session_flights "s1" empty_cache).0
        ⊎ (refresh_session cache (flights_client cache refusing) whole 5 server [] empty_cache
            ≡ (none, [], empty_cache)))
run-IsAccepted_example = run-IsAccepted cache refusing same_char whole 5 server [] empty_cache
