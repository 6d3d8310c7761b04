-- ===== src/Main.antt =====
-- cmd/politburo/main.go, with `Run` of internal/transport/http/server.go. `os.Exit` does not run what
-- was deferred.
pub mod Exits
use politburo.Prelude.{ℕ, String, Bool, true, false, Option, none, some, not, if◌then◌else◌}
use politburo.Config.{Config, Result, ok, err}
use politburo.Config.Env.{System}
use politburo.Config.Load.{load}
use politburo.Scheduler.{start}
use politburo.App.{State, Calls, App, new_app, close}

-- What ends the wait of `Run`: `Serve` returned with an error or with `ErrServerClosed`, or the
-- context was done, and `Shutdown` then returned nil (`true`) or an error.
pub data Wait : Type 0 where
  serve_failed : Wait
  server_closed : Wait
  interrupted : Bool → Wait

abbrev pub wait_result : Wait → Bool
wait_result serve_failed = false
wait_result server_closed = true
wait_result (interrupted done) = done

-- `if s.app.Config.Jobs.Enabled { s.app.Scheduler.Start() }`
abbrev pub with_jobs_started : Bool → App → App
with_jobs_started enabled a = if enabled then record a { scheduler = start a.scheduler } else a

-- `Run`; `listens` says that `net.Listen` succeeds, and `false` is an error
unfoldable pub run : Config → Bool → Wait → App → Bool × App
run cfg listens wait a =
    if not listens then (false, a) else (wait_result wait, with_jobs_started cfg.jobs.enabled a)

-- the exit status, and the connections that the process leaves to it
abbrev pub after_run : State → Bool × App → ℕ × State
after_run s (false, a) = (1, s)
after_run s (true, a) = (0, (close a s).1)

abbrev pub with_app : Config → Bool → Wait → Option App × State → ℕ × State
with_app cfg listens wait (none, s) = (1, s)
with_app cfg listens wait (some a, s) = after_run s (run cfg listens wait a)

abbrev pub with_config : Calls → Bool → Wait → State → Result Config → ℕ × State
with_config calls listens wait s (err e) = (1, s)
with_config calls listens wait s (ok cfg) = with_app cfg listens wait (new_app calls s)

unfoldable pub main : System → Calls → Bool → Wait → State → ℕ × State
unfolding run
main sys calls listens wait s = with_config calls listens wait s (load sys)
