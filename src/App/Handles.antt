-- ===== src/App/Handles.antt =====
-- What the app leaves open.
use politburo.Prelude.{
  ℕ, ◌+◌, true, false, Option, none, some, ◌≡◌, inl, inr, refl, ap₂, Bool-cases, arith, subst,
}
use politburo.Scheduler.{new, stop, Registered, registered, nil_job, duplicate_name, bad_schedule}
use politburo.Scheduler.Jobs.{register_jobs}
use politburo.App.{
  State, Calls, add_database, add_redis, close_database, close_redis, App, open_database,
  open_redis, with_jobs, with_redis, new_app, close,
}

-- one connection more of each
abbrev pub both_open : State → State
both_open s = record { databases = s.databases + 1; redises = s.redises + 1 }

-- An app holds one connection of each kind; without one nothing stays open.
abbrev pub IsClean : State → Option App × State → Type 0
IsClean s (none, s') = s' ≡ s
IsClean s (some a, s') = (s' ≡ both_open s) × (a.closed ≡ false)

same_state : (s t : State) → s.databases ≡ t.databases → s.redises ≡ t.redises → s ≡ t
same_state s t d r =
    let of_counts : ℕ → ℕ → State = λ d r. record { databases = d; redises = r } in
    ap₂ of_counts d r

close_fresh :
    (a : App) (s : State)
    → a.closed ≡ false
    → close a s
      ≡ (record a { scheduler = stop a.scheduler; closed = true }, close_database (close_redis s))
unfolding close
close_fresh a s fresh = rw fresh refl

pub close-both_open : (a : App) (s : State) → a.closed ≡ false → (close a (both_open s)).1 ≡ s
close-both_open a s fresh =
    rw (close_fresh a (both_open s) fresh) (same_state _ s (omega arith) (omega arith))

module _ (calls : Calls) (s : State) where
  -- an answer in the state with both connections open
  with_jobs-IsClean : (r : Registered) → IsClean s (with_jobs calls r (add_redis (add_database s)))
  with_jobs-IsClean (registered jobs) = (refl, refl)
  with_jobs-IsClean nil_job = same_state _ s (omega arith) (omega arith)
  with_jobs-IsClean duplicate_name = same_state _ s (omega arith) (omega arith)
  with_jobs-IsClean bad_schedule = same_state _ s (omega arith) (omega arith)

  with_redis-IsClean : IsClean s (with_redis calls (open_redis calls (add_database s)))
  unfolding open_redis
  with_redis-IsClean = elim (Bool-cases calls.pings_redis) [
    | inr down ↦ rw down (same_state _ s (omega arith) (omega arith))
    | inl up ↦ rw up (elim (Bool-cases calls.parses_templates) [
      | inr bad ↦ rw bad (same_state _ s (omega arith) (omega arith))
      | inl good ↦ rw good (elim (Bool-cases calls.makes_client) [
        | inr bad ↦ rw bad (same_state _ s (omega arith) (omega arith))
        | inl made ↦ rw made (with_jobs-IsClean (register_jobs calls.parses new))
      ])
    ])
  ]

  -- A start that fails closes whatever it opened; one that succeeds leaves one connection to the
  -- database and one to Redis open.
  pub new_app-IsClean : IsClean s (new_app calls s)
  unfolding new_app open_database open_redis
  new_app-IsClean = elim (Bool-cases calls.opens_database) [
    | inr bad ↦ rw bad refl
    | inl opened ↦ rw opened (elim (Bool-cases calls.pings_database) [
      | inr down ↦ rw down (same_state _ s (omega arith) (omega arith))
      | inl up ↦ rw up with_redis-IsClean
    ])
  ]

  -- Closing an app that started closes both connections and stops its scheduler; closing it again
  -- changes nothing.
  pub new_app-close :
      (a : App) (s' : State)
      → new_app calls s ≡ (some a, s')
      → ((close a s').1 ≡ s)
        × ((close a s').0.scheduler ≡ stop a.scheduler)
        × (close (close a s').0 (close a s').1 ≡ close a s')
  unfolding close
  new_app-close a s' e =
      let clean : IsClean s (some a, s') = subst (IsClean s) e new_app-IsClean in
      let (at, fresh) = clean in
      rw (close_fresh a s' fresh, at) (same_state _ s (omega arith) (omega arith), refl, refl)
