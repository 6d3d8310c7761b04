-- ===== src/Scheduler/Invariant.antt =====
-- What holds of the scheduler and its metrics at all times.
use politburo.Prelude.{
  ℕ, ◌+◌, ◌≤◌, String, Bool, true, false, List, [], ◌∷◌, ◌++◌, ◌==◌, ◌&&◌, if◌then◌else◌, length,
  length-append, ◌≡◌, refl, sym, ◌∙◌, inl, inr, arith, Bool-cases, eq_iff,
}
use politburo.Upstream.{Time}
use politburo.Scheduler.{
  Entry, Scheduler, new, has_job, with_job, set_at, Ending, returned_nil, returned_error, panicked,
}
use politburo.Scheduler.Steps.{with_busy, begun, ended}

abbrev pub bit : Bool → ℕ
bit b = if b then 1 else 0

-- how many entries have a name, and how many of them run
unfoldable pub named : String → List Entry → ℕ
named n [] = 0
named n (e ∷ es) = bit (n == e.name) + named n es

unfoldable pub active : String → List Entry → ℕ
active n [] = 0
active n (e ∷ es) = bit ((n == e.name) && e.busy) + active n es

named-append : (n : String) (es fs : List Entry) → named n (es ++ fs) ≡ named n es + named n fs
unfolding named
named-append n [] fs = omega arith
named-append n (e ∷ es) fs = ground (arith, named-append n es fs)

active-append : (n : String) (es fs : List Entry) → active n (es ++ fs) ≡ active n es + active n fs
unfolding active
active-append n [] fs = omega arith
active-append n (e ∷ es) fs = ground (arith, active-append n es fs)

pub active_le_named : (n : String) (es : List Entry) → active n es ≤ named n es
unfolding active named
active_le_named n [] = omega arith
active_le_named n (e ∷ es) = ground (arith, active_le_named n es)

-- Each name of `jobs` has one entry, the gauge of a name counts the runs that have begun and not
-- ended, and each run that ended has a duration and an outcome.
pub record IsConsistent (s : Scheduler) : Type 0 where
  pub one_entry : (n : String) → named n s.entries ≡ bit (has_job n s.jobs)
  pub gauge : (n : String) → s.metrics.job_running n ≡ active n s.entries
  pub observed :
      (n : String)
      → length (s.metrics.job_duration n)
        ≡ s.metrics.job_runs n "success" + s.metrics.job_runs n "error"

pub new-IsConsistent : IsConsistent new
unfolding named active
new-IsConsistent = record { one_entry = λ n. refl; gauge = λ n. refl; observed = λ n. refl }

pub with_job-IsConsistent :
    (s : Scheduler) (name schedule : String)
    → has_job name s.jobs ≡ false
    → IsConsistent s
    → IsConsistent (with_job s name schedule)
unfolding named active
with_job-IsConsistent s name schedule fresh c = record {
  one_entry = one;
  gauge = idle;
  observed = c.observed;
}
  where
    one :
        (n : String)
        → named n (with_job s name schedule).entries
          ≡ bit (has_job n (with_job s name schedule).jobs)
    one n = elim (Bool-cases (n == name)) [
      | inl here ↦
          let same : n ≡ name = ground (arith, eq_iff n name) in
          let known : has_job n s.jobs ≡ false = rw same fresh in
          rw (named-append, c.one_entry n, here, known) refl
      | inr other ↦
          let has : has_job n (name ∷ s.jobs) ≡ has_job n s.jobs = rw other refl in
          rw (has, named-append, c.one_entry n, other) (omega arith)
    ]

    idle : (n : String) → s.metrics.job_running n ≡ active n (with_job s name schedule).entries
    idle n = elim (Bool-cases (n == name)) [
      | inl here ↦ rw (active-append, here) (omega (arith, c.gauge n))
      | inr other ↦ rw (active-append, other) (omega (arith, c.gauge n))
    ]

pub bit_le : (b : Bool) → bit b ≤ 1
bit_le b = ground arith

module _ (s : Scheduler) (before : List Entry) (e : Entry) (after : List Entry)
    (here : s.entries ≡ before ++ e ∷ after) (c : IsConsistent s) where
  -- the counts around the entry
  named-here :
      (n : String) → named n before + (bit (n == e.name) + named n after) ≡ named n s.entries
  unfolding named
  named-here n = rw here (sym (named-append n before (e ∷ after)))

  active-here :
      (n : String)
      → active n before + (bit ((n == e.name) && e.busy) + active n after) ≡ active n s.entries
  unfolding active
  active-here n = rw here (sym (active-append n before (e ∷ after)))

  one_still :
      (b : Bool) (n : String) → named n (before ++ with_busy e b ∷ after) ≡ bit (has_job n s.jobs)
  unfolding named
  one_still b n = named-append n before (with_busy e b ∷ after) ∙ named-here n ∙ c.one_entry n

  gauge_still :
      (b : Bool) (v : ℕ) (n : String)
      → v ≡ bit b
      → set_at e.name v s.metrics.job_running n ≡ active n (before ++ with_busy e b ∷ after)
  unfolding active
  gauge_still b v n value =
      let around : named n before + (bit (n == e.name) + named n after) ≡ named n s.entries =
        named-here n in
      let running : active n before + (bit ((n == e.name) && e.busy) + active n after)
          ≡ active n s.entries =
        active-here n in
      rw active-append (elim (Bool-cases (n == e.name)) [
        | inl same ↦
            let limit = bit_le (has_job n s.jobs) in
            let whole : named n before + (1 + named n after) ≡ named n s.entries =
              rw same at around in
            rw same (
              omega (
                arith,
                value,
                limit,
                whole,
                c.one_entry n,
                active_le_named n before,
                active_le_named n after,
              ))
        | inr other ↦
            let whole : active n before + (0 + active n after) ≡ active n s.entries =
              rw other at running in
            rw other (omega (arith, whole, c.gauge n))
      ])

  pub begun-IsConsistent : IsConsistent (begun s before e after)
  begun-IsConsistent = record {
    one_entry = one_still true;
    gauge = λ n. gauge_still true 1 n refl;
    observed = c.observed;
  }

  -- one more run with an outcome, and its duration
  observed_still :
      (runs : String → ℕ) (seconds : ℕ) (n : String)
      → runs "success" + runs "error"
        ≡ s.metrics.job_runs e.name "success" + s.metrics.job_runs e.name "error" + 1
      → length
          (set_at e.name (s.metrics.job_duration e.name ++ seconds ∷ []) s.metrics.job_duration n)
        ≡ set_at e.name runs s.metrics.job_runs n "success"
          + set_at e.name runs s.metrics.job_runs n "error"
  observed_still runs seconds n more = elim (Bool-cases (n == e.name)) [
    | inl same ↦ rw (same, length-append) (omega (arith, more, c.observed e.name))
    | inr other ↦ rw other (c.observed n)
  ]

  pub ended-IsConsistent :
      (ending : Ending) (now : Time) (seconds : ℕ)
      → IsConsistent (ended s before e after ending now seconds)
  ended-IsConsistent returned_nil now seconds = record {
    one_entry = one_still false;
    gauge = λ n. gauge_still false 0 n refl;
    observed = λ n. observed_still _ seconds n (omega arith);
  }
  ended-IsConsistent returned_error now seconds = record {
    one_entry = one_still false;
    gauge = λ n. gauge_still false 0 n refl;
    observed = λ n. observed_still _ seconds n (omega arith);
  }
  ended-IsConsistent panicked now seconds = record {
    one_entry = one_still false;
    gauge = λ n. gauge_still false 0 n refl;
    observed = λ n. observed_still _ seconds n (omega arith);
  }
