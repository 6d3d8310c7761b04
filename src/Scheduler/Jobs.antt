-- ===== src/Scheduler/Jobs.antt =====
-- internal/jobs/register.go, with the schedules of internal/jobs/schedules/schedules.go and the names
-- of the jobs.
use politburo.Prelude.{String, Bool, true, false, some, [], ◌∷◌, ◌≡◌, refl}
use politburo.Scheduler.{Scheduler, new, with_job, Registered, registered, register}
use politburo.Scheduler.Steps.{Step, Reachable, at_new, then_step, registers}

abbrev pub sessions_job : String
sessions_job = "infinite-flight-sessions"

abbrev pub liveries_job : String
liveries_job = "infinite-flight-liveries"

abbrev pub flights_job : String
flights_job = "infinite-flight-flights"

abbrev pub sessions_sync : String
sessions_sync = "0 */5 * * * *"

abbrev pub liveries_sync : String
liveries_sync = "0 0 * * * *"

abbrev pub flights_sync : String
flights_sync = "0 * * * * *"

-- `if err != nil { return err }`
abbrev pub or_error : Registered → (Scheduler → Registered) → Registered
or_error (registered s) rest = rest s
or_error e rest = e

-- `Register`
unfoldable pub register_jobs : (String → Bool) → Scheduler → Registered
unfolding register
register_jobs parses s = or_error (register parses s (some sessions_job) sessions_sync) (λ s1.
    or_error (register parses s1 (some liveries_job) liveries_sync)
      (λ s2. register parses s2 (some flights_job) flights_sync))

-- When cron takes the three schedules the three jobs are registered on a new scheduler, each idle, in
-- a state that the steps of a scheduler reach.
pub register_jobs-Reachable :
    (parses : String → Bool)
    → parses sessions_sync ≡ true
    → parses liveries_sync ≡ true
    → parses flights_sync ≡ true
    → (s : Scheduler) × (register_jobs parses new ≡ registered s)
      × Reachable parses s
      × (s.entries
          ≡ record { name = sessions_job; schedule = sessions_sync; busy = false }
            ∷ record { name = liveries_job; schedule = liveries_sync; busy = false }
            ∷ record { name = flights_job; schedule = flights_sync; busy = false }
            ∷ [])
unfolding register_jobs register
register_jobs-Reachable parses p1 p2 p3 =
    let s1 = with_job new sessions_job sessions_sync in
    let s2 = with_job s1 liveries_job liveries_sync in
    let s3 = with_job s2 flights_job flights_sync in
    let first : Step parses new s1 = registers (some sessions_job) sessions_sync (rw p1 refl) in
    let second : Step parses s1 s2 = registers (some liveries_job) liveries_sync (rw p2 refl) in
    let third : Step parses s2 s3 = registers (some flights_job) flights_sync (rw p3 refl) in
    let reached = then_step (then_step (then_step at_new first) second) third in
    (s3, rw (p1, p2, p3) refl, reached, refl)
