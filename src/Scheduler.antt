-- ===== src/Scheduler.antt =====
-- internal/scheduler/scheduler.go: the jobs that cron runs, and their metrics. The context of the jobs
-- and the log lines are left out.
pub mod Steps
pub mod Invariant
pub mod Reached
pub mod Stopped
pub mod Jobs
use politburo.Prelude.{
  ℕ, ◌+◌, String, Bool, true, false, Option, none, some, List, [], ◌∷◌, ◌++◌, ◌==◌, ◌&&◌, ◌||◌,
  if◌then◌else◌,
}
use politburo.Upstream.{Time}

-- A function that cron runs, with the lock of `SkipIfStillRunning` around it.
pub record Entry : Type 0 where
  pub name : String
  pub schedule : String
  pub busy : Bool

-- the metrics of the jobs; a gauge that was never set is 0
pub record Metrics : Type 0 where
  pub job_running : String → ℕ
  pub job_runs : String → String → ℕ
  pub job_duration : String → List ℕ
  pub job_last_success : String → Option Time

-- `entries` are those of cron, in the order of their registration; the keys of `jobs` are their
-- names. `is_running` says that cron runs, `start_done` and `stop_done` that the two `sync.Once` were
-- used, and `cancelled` that the context of the jobs is.
pub record Scheduler : Type 0 where
  pub entries : List Entry
  pub jobs : List String
  pub metrics : Metrics
  pub is_running : Bool
  pub cancelled : Bool
  pub start_done : Bool
  pub stop_done : Bool

abbrev pub no_metrics : Metrics
no_metrics = record {
  job_running = λ n. 0;
  job_runs = λ n o. 0;
  job_duration = λ n. [];
  job_last_success = λ n. none;
}

-- `New`
abbrev pub new : Scheduler
new = record {
  entries = [];
  jobs = [];
  metrics = no_metrics;
  is_running = false;
  cancelled = false;
  start_done = false;
  stop_done = false;
}

pub data Registered : Type 0 where
  registered : Scheduler → Registered
  nil_job : Registered
  duplicate_name : Registered
  bad_schedule : Registered

abbrev pub has_job : String → List String → Bool
has_job n [] = false
has_job n (m ∷ ms) = n == m || has_job n ms

abbrev pub with_job : Scheduler → String → String → Scheduler
with_job s name schedule = record s {
  entries = s.entries ++ record { name = name; schedule = schedule; busy = false } ∷ [];
  jobs = name ∷ s.jobs;
}

-- `Register`, of a job by its name, `none` for a nil job; `parses` says that `cron.AddFunc` takes a
-- schedule
unfoldable pub register : (String → Bool) → Scheduler → Option String → String → Registered
register parses s none schedule = nil_job
register parses s (some name) schedule =
    if has_job name s.jobs
    then duplicate_name
    else if parses schedule
    then registered (with_job s name schedule)
    else bad_schedule

abbrev pub set_at {ℓ} : {A : Type ℓ} → String → A → (String → A) → String → A
set_at name v f n = if n == name then v else f n

-- the first lines of `run`
abbrev pub begin_run : String → Metrics → Metrics
begin_run name m = record m { job_running = set_at name 1 m.job_running }

-- How `job.Run` ends: with nil, with an error, or with a panic.
pub data Ending : Type 0 where
  returned_nil : Ending
  returned_error : Ending
  panicked : Ending

abbrev pub outcome_of : Ending → String
outcome_of returned_nil = "success"
outcome_of returned_error = "error"
outcome_of panicked = "error"

-- `SetToCurrentTime`, only after a run without an error
abbrev pub note_success : String → Ending → Time → Metrics → Metrics
note_success name returned_nil now m = record m {
  job_last_success = set_at name (some now) m.job_last_success;
}
note_success name returned_error now m = m
note_success name panicked now m = m

-- the deferred function of `run`
abbrev pub record_run : String → String → ℕ → Metrics → Metrics
record_run name outcome seconds m = record m {
  job_running = set_at name 0 m.job_running;
  job_runs =
      set_at name (set_at outcome (m.job_runs name outcome + 1) (m.job_runs name)) m.job_runs;
  job_duration = set_at name (m.job_duration name ++ seconds ∷ []) m.job_duration;
}

-- `run` from the return of the job on
abbrev pub end_run : String → Ending → Time → ℕ → Metrics → Metrics
end_run name ending now seconds m =
    record_run name (outcome_of ending) seconds (note_success name ending now m)

-- `Start`
unfoldable pub start : Scheduler → Scheduler
start s = if s.start_done then s else record s { start_done = true; is_running = true }

-- `Stop`, up to its wait for the jobs that still run
unfoldable pub stop : Scheduler → Scheduler
stop s =
    if s.stop_done then s else record s { stop_done = true; cancelled = true; is_running = false }
