-- ===== src/Jobs/Sessions/Stored.antt =====
-- What the cache holds after a refresh of the sessions.
use politburo.Prelude.{
  ◌≤◌, Char, Bool, true, false, Option, none, some, List, [], ◌∷◌, ◌++◌, map, length, All,
  All-append, ◌≡◌, ◌≢◌, refl, ap, ◌∙◌, arith, Bool-cases, inl, inr, ◌⊎◌, eqb,
}
use politburo.Recent.{keep_last, length-keep_last-le, All-keep_last}
use politburo.Upstream.{Time, Session}
use politburo.GameSessions.{
  Snapshot, snapshot, nil, last_cached, history, to_list, from_list, without_history, cache_ttl,
}
use politburo.Cache.{Shape, Reply, hit, miss, broken, Store}
use politburo.Cache.Contract.{Contract}
use politburo.Cache.Keys.{key_active_sessions, key_session_names}
use politburo.Cache.Keys.Laws.{Entry, key_of, key_of-injective}
use politburo.Jobs.{done}
use politburo.Jobs.Sessions.{
  SessionsClient, max_snapshots, prepare_current_sessions, next_snapshots, existing_of, after_names,
  write_names, refresh, run,
}

abbrev pub IsFlat : Snapshot → Type 0
IsFlat s = history s ≡ nil

pub map-IsFlat : (l : List Snapshot) → All IsFlat (map without_history l)
map-IsFlat [] = tt
map-IsFlat (snapshot r t h ∷ l) = (refl, map-IsFlat l)

without_history-IsFlat : (s : Snapshot) → IsFlat (without_history s)
without_history-IsFlat (snapshot r t h) = refl

-- what a list of snapshots keeps to
abbrev Bounded : List Snapshot → Type 0
Bounded l = (length l ≤ max_snapshots) × All IsFlat l

kept-Bounded :
    (s : Snapshot)
    → Bounded (
        keep_last max_snapshots
          (map without_history (to_list (history s)) ++ without_history s ∷ []))
kept-Bounded s =
    let all = map without_history (to_list (history s)) ++ without_history s ∷ [] in
    (
      length-keep_last-le max_snapshots all,
      All-keep_last IsFlat max_snapshots all (
          All-append IsFlat (map without_history (to_list (history s))) (without_history s ∷ [])
            (map-IsFlat (to_list (history s))) (without_history-IsFlat s, tt)),
    )

empty-Bounded : Bounded []
empty-Bounded = (omega arith, tt)

next_snapshots-Bounded : (existing : Option Snapshot) → Bounded (next_snapshots existing)
next_snapshots-Bounded none = empty-Bounded
next_snapshots-Bounded (some s) = elim (Bool-cases (eqb (last_cached s) 0)) [
  | inl unset ↦ rw unset empty-Bounded
  | inr set ↦ rw set (kept-Bounded s)
]

to_list-from_list : (l : List Snapshot) → to_list (from_list l) ≡ l
to_list-from_list [] = refl
to_list-from_list (s ∷ l) = ap (◌∷◌ s) (to_list-from_list l)

names-ne-sessions : key_active_sessions ≢ key_session_names
unfolding key_of
names-ne-sessions e = sessions≢names (key_of-injective Entry.active_sessions Entry.session_names e)
  where
    sessions≢names : Entry.active_sessions ≡ Entry.session_names → ⊥
    sessions≢names h = cc

module _ {W : Type 0} (store : Store W) (c : Contract store) (lower : Char → Char)
    (now : Time) where
  -- The two entries that a refresh writes, for the sessions `l` and the snapshot that was read in
  -- the state `w₀`, if one was.
  pub record Stored (w₀ : W) (l : List Session) (w : W) : Type 0 where
    pub existing : Option Snapshot
    pub held_before :
        (existing ≡ none) ⊎ (c.holds Shape.sessions_shape key_active_sessions w₀ ≡ existing)
    pub sessions :
        c.holds Shape.sessions_shape key_active_sessions w
        ≡ some (snapshot l now (from_list (next_snapshots existing)))
    pub names :
        c.holds Shape.names_shape key_session_names w ≡ some (map (λ s. s.normalized_name) l)
    pub bounded : length (to_list (from_list (next_snapshots existing))) ≤ max_snapshots
    pub flat : All IsFlat (to_list (from_list (next_snapshots existing)))

  after_names-done :
      (p : Bool × W) (w' : W) → after_names store p ≡ (done, w') → (p.0 ≡ true) × (p.1 ≡ w')
  after_names-done (true, w) w' e = (refl, cc)
  after_names-done (false, w) w' e = cc

  write_names-done :
      (w₀ : W) (l : List Session) (existing : Option Snapshot) (p : Bool × W) (w' : W)
      → write_names store l p ≡ (done, w')
      → (existing ≡ none) ⊎ (c.holds Shape.sessions_shape key_active_sessions w₀ ≡ existing)
      → (p.0 ≡ true
          → c.holds Shape.sessions_shape key_active_sessions p.1
            ≡ some (snapshot l now (from_list (next_snapshots existing))))
      → Stored w₀ l w'
  write_names-done w₀ l existing (false, w) w' e b h = cc
  write_names-done w₀ l existing (true, w) w' e b h =
      let names = map (λ (s : Session). s.normalized_name) l in
      let (ok, at) = after_names-done _ w' e in
      let (short, flat) = next_snapshots-Bounded existing in
      record {
        existing = existing;
        held_before = b;
        sessions = rw (← at) (
            c.set_ne Shape.names_shape Shape.sessions_shape key_session_names key_active_sessions
              names 0 w names-ne-sessions
            ∙ h refl);
        names = rw (← at) (c.set_ok Shape.names_shape key_session_names names 0 w ok);
        bounded = rw to_list-from_list short;
        flat = rw to_list-from_list flat;
      }

  existing_of-held :
      (w₀ : W) (r : Reply Snapshot)
      → (store.get_json Shape.sessions_shape key_active_sessions w₀).0 ≡ r
      → (existing_of r ≡ none)
        ⊎ (c.holds Shape.sessions_shape key_active_sessions w₀ ≡ existing_of r)
  existing_of-held w₀ (hit s) e = inr (c.get_hit Shape.sessions_shape key_active_sessions w₀ s e)
  existing_of-held w₀ miss e = inl refl
  existing_of-held w₀ broken e = inl refl

  refresh-done :
      (fetched : Option (List Session) × W) (w' : W)
      → refresh store lower now fetched ≡ (done, w')
      → (upstream : List Session) × (fetched.0 ≡ some upstream)
        × Stored fetched.1 (prepare_current_sessions lower now upstream) w'
  refresh-done (none, w) w' e = cc
  refresh-done (some upstream, w) w' e =
      let read = store.get_json Shape.sessions_shape key_active_sessions w in
      let l = prepare_current_sessions lower now upstream in
      let existing = existing_of read.0 in
      (
        upstream,
        refl,
        write_names-done w l existing _ w' e (existing_of-held w read.0 refl) (
            c.set_ok Shape.sessions_shape key_active_sessions
              (snapshot l now (from_list (next_snapshots existing))) cache_ttl read.1),
      )

  -- A refresh that ends without an error has fetched sessions, and the cache holds the prepared
  -- sessions with the time of the refresh, and their names. The history of that entry comes from the
  -- snapshot that the cache held before, or is empty; it has at most 50 snapshots, none of them with
  -- a history of its own, whatever that snapshot was.
  pub run-Stored :
      (client : SessionsClient W) (w w' : W)
      → run store client lower now w ≡ (done, w')
      → (upstream : List Session) × ((client w).0 ≡ some upstream)
        × Stored (client w).1 (prepare_current_sessions lower now upstream) w'
  unfolding run
  run-Stored client w w' e = refresh-done (client w) w' e
