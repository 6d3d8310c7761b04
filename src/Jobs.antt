-- ===== src/Jobs.antt =====
-- internal/jobs: the scheduled refreshes of the game cache.
pub mod Sessions
pub mod Accepted
pub mod Liveries
pub mod Flights

-- The result of `Run`: a nil error or another.
pub data Outcome : Type 0 where
  done : Outcome
  job_failed : Outcome
