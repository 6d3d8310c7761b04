-- ===== src/Tests/Cron.antt =====
-- A scheduler with the three jobs, one of which runs.
use politburo.Prelude.{ℕ, ◌+◌, String, Bool, true, false, some, [], ◌∷◌, ◌++◌, ◌≡◌, refl}
use politburo.Scheduler.{
  Entry, panicked, Scheduler, new, with_job, registered, register, start, stop,
}
use politburo.Scheduler.Steps.{
  Step, with_busy, begun, ended, ends, Reachable, at_new, then_step, registers, starts, begins,
}
use politburo.Scheduler.Invariant.{IsConsistent}
use politburo.Scheduler.Reached.{ended_runs, IsRecorded, Reachable-IsConsistent}
use politburo.Scheduler.Stopped.{run_count, Steps, stop-drains}
use politburo.Scheduler.Jobs.{sessions_job, sessions_sync}

abbrev takes : String → Bool
takes schedule = true

abbrev sessions_only : Scheduler
sessions_only = with_job new sessions_job sessions_sync

abbrev entry : Entry
entry = record { name = sessions_job; schedule = sessions_sync; busy = false }

sessions_registered :
    register takes new (some sessions_job) sessions_sync ≡ registered sessions_only
unfolding register
sessions_registered = refl

started_only : (start sessions_only).is_running ≡ true
unfolding start
started_only = refl

entries_only : (start sessions_only).entries ≡ [] ++ entry ∷ []
unfolding start
entries_only = refl

-- the job of the sessions runs
abbrev running : Scheduler
running = begun (start sessions_only) [] entry []

running-Reachable : Reachable takes running
running-Reachable =
    let one : Step takes new sessions_only =
      registers (some sessions_job) sessions_sync sessions_registered in
    let two : Step takes sessions_only (start sessions_only) = starts in
    let three : Step takes (start sessions_only) running =
      begins [] entry [] entries_only started_only refl in
    then_step (then_step (then_step at_new one) two) three

-- the run panics
abbrev crashed : Scheduler
crashed = ended running [] (with_busy entry true) [] panicked 9 4

running_entries : running.entries ≡ [] ++ with_busy entry true ∷ []
unfolding start
running_entries = refl

crashed-Reachable : Reachable takes crashed
crashed-Reachable =
    let four : Step takes running crashed =
      ends [] (with_busy entry true) [] panicked 9 4 running_entries refl in
    then_step running-Reachable four

Reachable-IsConsistent_example :
    IsConsistent crashed
    × ((n : String)
        → IsRecorded takes n
            (ended_runs takes n true crashed crashed-Reachable)
            (ended_runs takes n false crashed crashed-Reachable)
            crashed)
Reachable-IsConsistent_example = Reachable-IsConsistent takes crashed crashed-Reachable

running_started : running.start_done ≡ true
unfolding start
running_started = refl

running_first : running.stop_done ≡ false
unfolding start
running_first = refl

stop-drains_example :
    ((n : ℕ) (s' : Scheduler)
      → Steps takes n (stop running) s'
      → (s'.is_running ≡ false) × (n + run_count s'.entries ≡ run_count running.entries))
    × ((s' : Scheduler) × Steps takes (run_count running.entries) (stop running) s'
        × (run_count s'.entries ≡ 0))
stop-drains_example = stop-drains takes running running_started running_first
