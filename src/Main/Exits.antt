-- ===== src/Main/Exits.antt =====
-- How the program ends.
use politburo.Prelude.{◌⊎◌, refl, ℕ, Bool, true, false, Option, none, some, ◌≡◌, inl, inr}
use politburo.Config.{Config, ConfigError, Result, ok, err}
use politburo.Config.Env.{System}
use politburo.Config.Load.{load}
use politburo.App.{State, Calls, App, new_app}
use politburo.App.Handles.{both_open, IsClean, new_app-IsClean, close-both_open}
use politburo.Main.{
  Wait, serve_failed, server_closed, interrupted, wait_result, with_jobs_started, run, after_run,
  with_app, with_config, main,
}

-- why the server returned with an error: it could not listen, or `Serve` or `Shutdown` failed
abbrev ServerFails : Bool → Wait → Type 0
ServerFails listens wait = (listens ≡ false) ⊎ (wait ≡ serve_failed) ⊎ (wait ≡ interrupted false)

-- how a run of the program can end
pub data IsExit (sys : System) (calls : Calls) (listens : Bool) (wait : Wait) (s : State)
    : ℕ × State → Type 0 where
  done :
      (a : App)
      → (new_app calls s).0 ≡ some a
      → listens ≡ true
      → (wait ≡ server_closed) ⊎ (wait ≡ interrupted true)
      → IsExit sys calls listens wait s (0, s)
  bad_config : (e : ConfigError) → load sys ≡ err e → IsExit sys calls listens wait s (1, s)
  not_made : (new_app calls s).0 ≡ none → IsExit sys calls listens wait s (1, s)
  left_open :
      (a : App)
      → (new_app calls s).0 ≡ some a
      → ServerFails listens wait
      → IsExit sys calls listens wait s (1, both_open s)

fresh_started : (b : Bool) (a : App) → a.closed ≡ false → (with_jobs_started b a).closed ≡ false
fresh_started true a fresh = fresh
fresh_started false a fresh = fresh

module _ (sys : System) (calls : Calls) (cfg : Config) (s : State) where
  after_run-IsExit :
      (wait : Wait) (a b : App)
      → b.closed ≡ false
      → (new_app calls s).0 ≡ some a
      → IsExit sys calls true wait s (after_run (both_open s) (wait_result wait, b))
  after_run-IsExit serve_failed a b fresh made = left_open a made (inr (inl refl))
  after_run-IsExit server_closed a b fresh made =
      rw (close-both_open b s fresh) (done a made refl (inl refl))
  after_run-IsExit (interrupted true) a b fresh made =
      rw (close-both_open b s fresh) (done a made refl (inr refl))
  after_run-IsExit (interrupted false) a b fresh made = left_open a made (inr (inr refl))

  run-IsExit :
      (listens : Bool) (wait : Wait) (a : App)
      → a.closed ≡ false
      → (new_app calls s).0 ≡ some a
      → IsExit sys calls listens wait s (after_run (both_open s) (run cfg listens wait a))
  unfolding run
  run-IsExit true wait a fresh made =
      after_run-IsExit wait a (with_jobs_started cfg.jobs.enabled a)
        (fresh_started cfg.jobs.enabled a fresh) made
  run-IsExit false wait a fresh made = left_open a made (inl refl)

  with_app-IsExit :
      (listens : Bool) (wait : Wait) (p : Option App × State)
      → IsClean s p
      → (new_app calls s).0 ≡ p.0
      → IsExit sys calls listens wait s (with_app cfg listens wait p)
  with_app-IsExit listens wait (none, s') same made = rw same (not_made made)
  with_app-IsExit listens wait (some a, s') (same, fresh) made =
      rw same (run-IsExit listens wait a fresh made)

-- The program exits with 0 only after the server ended without an error, with every connection closed
-- that the program opened. It exits with 1 either
-- with no connection left, when the configuration is refused or the app is not made, or with the
-- connections to the database and to Redis still open, when the app was made and the server could not
-- listen or returned with an error.
pub main-IsExit :
    (sys : System) (calls : Calls) (listens : Bool) (wait : Wait) (s : State)
    → IsExit sys calls listens wait s (main sys calls listens wait s)
unfolding main
main-IsExit sys calls listens wait s = split (load sys) refl
  where
    split :
        (r : Result Config)
        → load sys ≡ r
        → IsExit sys calls listens wait s (with_config calls listens wait s r)
    split (err e) read = bad_config e read
    split (ok cfg) read =
        with_app-IsExit sys calls cfg s listens wait (new_app calls s) (new_app-IsClean calls s)
          refl
