-- ===== src/Scheduler/Reached.antt =====
-- What holds of the scheduler and its metrics in every state that it comes to.
use politburo.Prelude.{
  ap, ◌∙◌, Bool-cases, inl, inr, eq_iff, List, length-append, ℕ, ◌+◌, ◌==◌, ◌&&◌, not, length, refl,
  ◌≤◌, String, Bool, true, false, Option, if◌then◌else◌, ◌≡◌, subst, arith,
}
use politburo.Upstream.{Time}
use politburo.Scheduler.{
  Entry, with_job, Ending, returned_nil, returned_error, panicked, Scheduler, registered, has_job,
  register, start, stop,
}
use politburo.Scheduler.Steps.{
  begun, ended, register-registered, Step, registers, begins, ends, starts, stops, Reachable,
  at_new, then_step,
}
use politburo.Scheduler.Invariant.{
  bit, active_le_named, IsConsistent, new-IsConsistent, with_job-IsConsistent, bit_le,
  begun-IsConsistent, ended-IsConsistent,
}

-- whether a run ends without an error, or otherwise
abbrev pub is_good : Bool → Ending → Bool
is_good good returned_nil = good
is_good good returned_error = not good
is_good good panicked = not good

module _ (parses : String → Bool) where
  register-IsConsistent :
      (s s' : Scheduler) (job : Option String) (schedule : String)
      → register parses s job schedule ≡ registered s'
      → IsConsistent s
      → IsConsistent s'
  register-IsConsistent s s' job schedule e c =
      let (name, fresh, same) = register-registered parses s s' job schedule e in
      subst IsConsistent same (with_job-IsConsistent s name schedule fresh c)

  start-IsConsistent : (s : Scheduler) → IsConsistent s → IsConsistent (start s)
  unfolding start
  start-IsConsistent s c = split s.start_done
    where
      split :
          (b : Bool)
          → IsConsistent (if b then s else record s { start_done = true; is_running = true })
      split true = c
      split false = record { one_entry = c.one_entry; gauge = c.gauge; observed = c.observed }

  stop-IsConsistent : (s : Scheduler) → IsConsistent s → IsConsistent (stop s)
  unfolding stop
  stop-IsConsistent s c = split s.stop_done
    where
      split :
          (b : Bool)
          → IsConsistent
              (if b then s else record s { stop_done = true; cancelled = true; is_running = false })
      split true = c
      split false = record { one_entry = c.one_entry; gauge = c.gauge; observed = c.observed }

  Step-IsConsistent : (s s' : Scheduler) → Step parses s s' → IsConsistent s → IsConsistent s'
  Step-IsConsistent s s' (registers job schedule e) c = register-IsConsistent s s' job schedule e c
  Step-IsConsistent s s' (begins before e after here running idle) c =
      begun-IsConsistent s before e after here c
  Step-IsConsistent s s' (ends before e after ending now seconds here busy) c =
      ended-IsConsistent s before e after here c ending now seconds
  Step-IsConsistent s s' starts c = start-IsConsistent s c
  Step-IsConsistent s s' stops c = stop-IsConsistent s c

  pub everywhere-IsConsistent : (s : Scheduler) → Reachable parses s → IsConsistent s
  everywhere-IsConsistent s at_new = new-IsConsistent
  everywhere-IsConsistent s (then_step r step) =
      Step-IsConsistent _ s step (everywhere-IsConsistent _ r)

  -- the runs of a name that one step ends with a result, and those of all steps
  abbrev pub ended_by : String → Bool → (s s' : Scheduler) → Step parses s s' → ℕ
  ended_by n good s s' (registers job schedule e) = 0
  ended_by n good s s' (begins before e after here running idle) = 0
  ended_by n good s s' (ends before e after ending now seconds here busy) =
      bit (n == e.name && is_good good ending)
  ended_by n good s s' starts = 0
  ended_by n good s s' stops = 0

  unfoldable pub ended_runs : String → Bool → (s : Scheduler) → Reachable parses s → ℕ
  ended_runs n good s at_new = 0
  ended_runs n good s (then_step {s = t} r step) = ended_runs n good t r + ended_by n good t s step

  -- the outcomes and the durations of a name, for so many runs that ended without an error and with one
  pub record IsRecorded (n : String) (good bad : ℕ) (s : Scheduler) : Type 0 where
    pub successes : s.metrics.job_runs n "success" ≡ good
    pub errors : s.metrics.job_runs n "error" ≡ bad
    pub durations : length (s.metrics.job_duration n) ≡ good + bad

  -- a step that leaves the outcomes and the durations
  same-IsRecorded :
      (n : String) (good bad : ℕ) (s s' : Scheduler)
      → s'.metrics.job_runs ≡ s.metrics.job_runs
      → s'.metrics.job_duration ≡ s.metrics.job_duration
      → IsRecorded n good bad s
      → IsRecorded n (good + 0) (bad + 0) s'
  same-IsRecorded n good bad s s' runs times i = record {
    successes = ap (λ f. f n "success") runs ∙ i.successes ∙ omega arith;
    errors = ap (λ f. f n "error") runs ∙ i.errors ∙ omega arith;
    durations = ap (λ f. length (f n)) times ∙ i.durations ∙ omega arith;
  }

  ended-IsRecorded :
      (n : String) (good bad : ℕ) (s : Scheduler) (before : List Entry) (e : Entry)
      (after : List Entry) (ending : Ending) (now : Time) (seconds : ℕ)
      → IsRecorded n good bad s
      → IsRecorded n
          (good + bit (n == e.name && is_good true ending))
          (bad + bit (n == e.name && is_good false ending))
          (ended s before e after ending now seconds)
  ended-IsRecorded n good bad s before e after ending now seconds i =
      elim (Bool-cases (n == e.name)) [
        | inl same ↦ let name : n ≡ e.name = (eq_iff n e.name).0 same in here ending name same
        | inr other ↦ away ending other
      ]
    where
      here :
          (ending : Ending)
          → n ≡ e.name
          → (n == e.name) ≡ true
          → IsRecorded n
              (good + bit (n == e.name && is_good true ending))
              (bad + bit (n == e.name && is_good false ending))
              (ended s before e after ending now seconds)
      here returned_nil name same = record {
        successes = rw (same, ← name) (omega (arith, i.successes));
        errors = rw (same, ← name) (omega (arith, i.errors));
        durations = rw (same, ← name, length-append) (omega (arith, i.durations));
      }
      here returned_error name same = record {
        successes = rw (same, ← name) (omega (arith, i.successes));
        errors = rw (same, ← name) (omega (arith, i.errors));
        durations = rw (same, ← name, length-append) (omega (arith, i.durations));
      }
      here panicked name same = record {
        successes = rw (same, ← name) (omega (arith, i.successes));
        errors = rw (same, ← name) (omega (arith, i.errors));
        durations = rw (same, ← name, length-append) (omega (arith, i.durations));
      }

      away :
          (ending : Ending)
          → (n == e.name) ≡ false
          → IsRecorded n
              (good + bit (n == e.name && is_good true ending))
              (bad + bit (n == e.name && is_good false ending))
              (ended s before e after ending now seconds)
      away returned_nil other = record {
        successes = rw other (omega (arith, i.successes));
        errors = rw other (omega (arith, i.errors));
        durations = rw other (omega (arith, i.durations));
      }
      away returned_error other = record {
        successes = rw other (omega (arith, i.successes));
        errors = rw other (omega (arith, i.errors));
        durations = rw other (omega (arith, i.durations));
      }
      away panicked other = record {
        successes = rw other (omega (arith, i.successes));
        errors = rw other (omega (arith, i.errors));
        durations = rw other (omega (arith, i.durations));
      }

  Step-IsRecorded :
      (n : String) (good bad : ℕ) (s s' : Scheduler) (step : Step parses s s')
      → IsRecorded n good bad s
      → IsRecorded n (good + ended_by n true s s' step) (bad + ended_by n false s s' step) s'
  unfolding start stop
  Step-IsRecorded n good bad s s' (registers job schedule e) i =
      let (name, fresh, same) = register-registered parses s s' job schedule e in
      subst (IsRecorded n (good + 0) (bad + 0)) same
        (same-IsRecorded n good bad s (with_job s name schedule) refl refl i)
  Step-IsRecorded n good bad s s' (begins before e after here running idle) i =
      same-IsRecorded n good bad s (begun s before e after) refl refl i
  Step-IsRecorded n good bad s s' (ends before e after ending now seconds here busy) i =
      ended-IsRecorded n good bad s before e after ending now seconds i
  Step-IsRecorded n good bad s s' starts i = elim (Bool-cases s.start_done) [
    | inl used ↦ same-IsRecorded n good bad s (start s) (rw used refl) (rw used refl) i
    | inr first ↦ same-IsRecorded n good bad s (start s) (rw first refl) (rw first refl) i
  ]
  Step-IsRecorded n good bad s s' stops i = elim (Bool-cases s.stop_done) [
    | inl used ↦ same-IsRecorded n good bad s (stop s) (rw used refl) (rw used refl) i
    | inr first ↦ same-IsRecorded n good bad s (stop s) (rw first refl) (rw first refl) i
  ]

  -- In every state that a scheduler comes to, each registered name has one entry and each other none,
  -- and the gauge `job_running` of a name counts its runs that have begun and not ended. Each run of a
  -- name that ended without an error is one success, each that ended with an error or a panic is one
  -- error, and each of both is one duration.
  pub Reachable-IsConsistent :
      (s : Scheduler) (r : Reachable parses s)
      → IsConsistent s
        × ((n : String) → IsRecorded n (ended_runs n true s r) (ended_runs n false s r) s)
  unfolding ended_runs
  Reachable-IsConsistent s r = (everywhere-IsConsistent s r, λ n. recorded n s r)
    where
      recorded :
          (n : String) (s : Scheduler) (r : Reachable parses s)
          → IsRecorded n (ended_runs n true s r) (ended_runs n false s r) s
      recorded n s at_new = record { successes = refl; errors = refl; durations = refl }
      recorded n s (then_step r step) = Step-IsRecorded n _ _ _ s step (recorded n _ r)

  -- No job runs twice at the same time: its gauge is never above 1.
  pub Reachable-gauge_le :
      (s : Scheduler) (n : String) → Reachable parses s → s.metrics.job_running n ≤ 1
  Reachable-gauge_le s n r =
      let c = everywhere-IsConsistent s r in
      omega
        (arith, c.gauge n, c.one_entry n, active_le_named n s.entries, bit_le (has_job n s.jobs))
