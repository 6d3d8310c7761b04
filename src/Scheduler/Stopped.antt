-- ===== src/Scheduler/Stopped.antt =====
-- The wait of `Stop` for the runs that have begun.
use politburo.Prelude.{
  ℕ, ◌+◌, String, Bool, true, false, Option, List, [], ◌∷◌, ◌++◌, if◌then◌else◌, ◌≡◌, ◌⊎◌, inl, inr,
  refl, arith, Bool-cases, zero, suc, subst, sym, ap,
}
use politburo.Scheduler.{
  Entry, Scheduler, registered, with_job, register, start, stop, returned_nil,
}
use politburo.Scheduler.Steps.{
  register-registered, ended, Step, registers, begins, ends, starts, stops,
}
use politburo.Scheduler.Invariant.{bit}

-- the number of runs that have begun and not ended, of all names
unfoldable pub run_count : List Entry → ℕ
run_count [] = 0
run_count (e ∷ es) = bit e.busy + run_count es

run_count-append : (es fs : List Entry) → run_count (es ++ fs) ≡ run_count es + run_count fs
unfolding run_count
run_count-append [] fs = omega arith
run_count-append (e ∷ es) fs = ground (arith, run_count-append es fs)

run_count-busy :
    (es : List Entry)
    → (run_count es ≡ 0)
      ⊎ ((before : List Entry) × (e : Entry) × (after : List Entry) × (es ≡ before ++ e ∷ after)
          × (e.busy ≡ true))
unfolding run_count
run_count-busy [] = inl refl
run_count-busy (e ∷ es) = elim (Bool-cases e.busy) [
  | inl busy ↦ inr ([], e, es, refl, busy)
  | inr idle ↦ elim (run_count-busy es) [
    | inl quiet ↦ inl (rw (idle, quiet) refl)
    | inr (before, f, after, same, busy) ↦ inr (e ∷ before, f, after, ap (◌∷◌ e) same, busy)
  ]
]

-- the scheduler after its stop: cron was started and does not run any more
abbrev pub IsStopped : Scheduler → Type 0
IsStopped s = (s.start_done ≡ true) × (s.is_running ≡ false)

-- the scheduler after its stop, of whose `n` runs `k` have ended
abbrev IsStoppedWith : ℕ → ℕ → Scheduler → Type 0
IsStoppedWith k n s = IsStopped s × (k + run_count s.entries ≡ n)

module _ (parses : String → Bool) where
  -- how many runs a step ends
  unfoldable pub run_ends : {s s' : Scheduler} → Step parses s s' → ℕ
  run_ends (registers job schedule e) = 0
  run_ends (begins before e after here run idle) = 0
  run_ends (ends before e after ending now seconds here busy) = 1
  run_ends starts = 0
  run_ends stops = 0

  -- any steps, of which `n` end a run
  pub data Steps : ℕ → Scheduler → Scheduler → Type 0 where
    stay : {s : Scheduler} → Steps 0 s s
    step_then :
        {n : ℕ} {s s' s'' : Scheduler} (step : Step parses s s')
        → Steps n s' s''
        → Steps (run_ends step + n) s s''

  register-IsStopped :
      (s s' : Scheduler) (job : Option String) (schedule : String)
      → register parses s job schedule ≡ registered s'
      → IsStopped s
      → IsStoppedWith 0 (run_count s.entries) s'
  unfolding run_count
  register-IsStopped s s' job schedule e (on, off) =
      let (name, fresh, same) = register-registered parses s s' job schedule e in
      let more : 0 + run_count (with_job s name schedule).entries ≡ run_count s.entries =
        rw run_count-append (omega arith) in
      subst (IsStoppedWith 0 (run_count s.entries)) same ((on, off), more)

  start-again : (s : Scheduler) → s.start_done ≡ true → start s ≡ s
  unfolding start
  start-again s on = rw on refl

  stop-IsStopped : (s : Scheduler) → IsStopped s → IsStoppedWith 0 (run_count s.entries) (stop s)
  unfolding stop
  stop-IsStopped s (on, off) = split s.stop_done
    where
      split :
          (b : Bool)
          → let s' =
              if b
              then s
              else record s { stop_done = true; cancelled = true; is_running = false } in
            IsStoppedWith 0 (run_count s.entries) s'
      split true = ((on, off), omega arith)
      split false = ((on, refl), omega arith)

  Step-IsStopped :
      (s s' : Scheduler) (step : Step parses s s')
      → IsStopped s
      → IsStoppedWith (run_ends step) (run_count s.entries) s'
  unfolding run_ends run_count start stop
  Step-IsStopped s s' (registers job schedule e) stopped =
      register-IsStopped s s' job schedule e stopped
  Step-IsStopped s s' (begins before e after here run idle) (on, off) = cc
  Step-IsStopped s s' (ends before e after ending now seconds here busy) stopped =
      (stopped, rw (here, run_count-append, run_count-append, busy) (omega arith))
  Step-IsStopped s s' starts (on, off) =
      subst (IsStoppedWith 0 (run_count s.entries)) (sym (start-again s on))
        ((on, off), omega arith)
  Step-IsStopped s s' stops stopped = stop-IsStopped s stopped

  Steps-IsStopped :
      (n : ℕ) (s s' : Scheduler)
      → Steps n s s'
      → IsStopped s
      → (s'.is_running ≡ false) × (n + run_count s'.entries ≡ run_count s.entries)
  Steps-IsStopped n s s' stay (on, off) = (off, omega arith)
  Steps-IsStopped n s s' (step_then {n = m} {s' = next} step steps) stopped =
      let (kept, one) = Step-IsStopped s next step stopped in
      let (off, all) = Steps-IsStopped m next s' steps kept in (off, omega (arith, one, all))

  Steps-drained :
      (n : ℕ) (s : Scheduler)
      → run_count s.entries ≡ n
      → (s' : Scheduler) × Steps n s s' × (run_count s'.entries ≡ 0)
  unfolding run_ends run_count
  Steps-drained zero s count = (s, stay, count)
  Steps-drained (suc n) s count = elim (run_count-busy s.entries) [
    | inl quiet ↦ absurd (omega (arith, quiet, count))
    | inr (before, e, after, here, busy) ↦
        let next = ended s before e after returned_nil 0 0 in
        let fewer : 1 + run_count next.entries ≡ run_count s.entries =
          rw (here, run_count-append, run_count-append, busy) (omega arith) in
        let (s', steps, quiet) = Steps-drained n next (omega (arith, fewer, count)) in
        let step : Step parses s next = ends before e after returned_nil 0 0 here busy in
        (s', subst (λ k. Steps k s s') (omega arith) (step_then step steps), quiet)
  ]

  -- After the first stop of a scheduler that was started, no run begins any more, whatever happens:
  -- the runs that ended since and those that are left are the ones that ran at the stop. So its wait
  -- is over once that many runs have ended, and they all can end.
  pub stop-drains :
      (s : Scheduler)
      → s.start_done ≡ true
      → s.stop_done ≡ false
      → ((n : ℕ) (s' : Scheduler)
          → Steps n (stop s) s'
          → (s'.is_running ≡ false) × (n + run_count s'.entries ≡ run_count s.entries))
        × ((s' : Scheduler) × Steps (run_count s.entries) (stop s) s' × (run_count s'.entries ≡ 0))
  unfolding stop
  stop-drains s on first =
      let stopped = record s { stop_done = true; cancelled = true; is_running = false } in
      let same : stop s ≡ stopped = rw first refl in
      rw same (
        λ n s' steps. Steps-IsStopped n stopped s' steps (on, refl),
        Steps-drained (run_count s.entries) stopped refl,
      )
