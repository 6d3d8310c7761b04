-- ===== src/Scheduler/Steps.antt =====
-- What happens to a scheduler, one step after the other. Cron documents that it runs the functions of
-- its entries while it is running, each in a goroutine of its own, and `SkipIfStillRunning` that a
-- function is not called while the call before it still runs; `Recover` catches a panic.
use politburo.Prelude.{
  ℕ, String, Bool, true, false, Option, none, some, inl, inr, Bool-cases, List, ◌∷◌, ◌++◌, ◌≡◌,
}
use politburo.Upstream.{Time}
use politburo.Scheduler.{
  Entry, Scheduler, new, registered, register, has_job, with_job, duplicate_name, bad_schedule,
  begin_run, Ending, end_run, start, stop,
}

abbrev pub with_busy : Entry → Bool → Entry
with_busy e b = record e { busy = b }

-- an entry starts or ends its run
abbrev pub begun : Scheduler → List Entry → Entry → List Entry → Scheduler
begun s before e after = record s {
  entries = before ++ with_busy e true ∷ after;
  metrics = begin_run e.name s.metrics;
}

abbrev pub ended : Scheduler → List Entry → Entry → List Entry → Ending → Time → ℕ → Scheduler
ended s before e after ending now seconds = record s {
  entries = before ++ with_busy e false ∷ after;
  metrics = end_run e.name ending now seconds s.metrics;
}

module _ (parses : String → Bool) where
  -- A job is registered only under a name that is new.
  pub register-registered :
      (s s' : Scheduler) (job : Option String) (schedule : String)
      → register parses s job schedule ≡ registered s'
      → (name : String) × (has_job name s.jobs ≡ false) × (with_job s name schedule ≡ s')
  unfolding register
  register-registered s s' none schedule e = cc
  register-registered s s' (some name) schedule e = elim (Bool-cases (has_job name s.jobs)) [
    | inl taken ↦ let failed : duplicate_name ≡ registered s' = rw taken at e in cc
    | inr fresh ↦ elim (Bool-cases (parses schedule)) [
      | inl good ↦
          let made : registered (with_job s name schedule) ≡ registered s' =
            rw (fresh, good) at e in
          (name, fresh, eq_of_registered made)
      | inr bad ↦ let failed : bad_schedule ≡ registered s' = rw (fresh, bad) at e in cc
    ]
  ]
    where
      eq_of_registered : {a b : Scheduler} → registered a ≡ registered b → a ≡ b
      eq_of_registered e = cc

  pub data Step : Scheduler → Scheduler → Type 0 where
    registers :
        {s s' : Scheduler} (job : Option String) (schedule : String)
        → register parses s job schedule ≡ registered s'
        → Step s s'
    begins :
        {s : Scheduler} (before : List Entry) (e : Entry) (after : List Entry)
        → s.entries ≡ before ++ e ∷ after
        → s.is_running ≡ true
        → e.busy ≡ false
        → Step s (begun s before e after)
    ends :
        {s : Scheduler} (before : List Entry) (e : Entry) (after : List Entry) (ending : Ending)
        (now : Time) (seconds : ℕ)
        → s.entries ≡ before ++ e ∷ after
        → e.busy ≡ true
        → Step s (ended s before e after ending now seconds)
    starts : {s : Scheduler} → Step s (start s)
    stops : {s : Scheduler} → Step s (stop s)

  pub data Reachable : Scheduler → Type 0 where
    at_new : Reachable new
    then_step : {s s' : Scheduler} → Reachable s → Step s s' → Reachable s'
