-- ===== src/Jobs/Sessions.antt =====
-- internal/jobs/sessions/job.go. `now` is what the clock gives, `lower` the mapping of
-- `unicode.ToLower`; the log lines are left out.
pub mod Prepared
pub mod Stored
use Prim.Native.String
use politburo.Prelude.{
  ℕ, Char, String, Bool, true, false, Option, none, some, List, [], ◌∷◌, ◌++◌, ◌==◌, map, Map, get,
  length, eqb, if◌then◌else◌,
}
use politburo.Keyed.{place, note_place}
use politburo.Recent.{keep_last}
use politburo.Upstream.{Time, Session, normalize_session_name}
use politburo.GameSessions.{
  Snapshot, snapshot, nil, result, last_cached, history, to_list, from_list, without_history,
  cache_ttl,
}
use politburo.Cache.{Shape, Reply, hit, miss, broken, Store}
use politburo.Cache.Keys.{key_active_sessions, key_session_names}
use politburo.Jobs.{Outcome, done, job_failed}

-- `GetSessions`; an error is `none`
abbrev pub SessionsClient : Type 0 → Type 0
SessionsClient W = W → Option (List Session) × W

abbrev pub max_snapshots : ℕ
max_snapshots = 50

-- the key of a session in `indexes`
unfoldable pub identity : Session → String
identity s = if s.id == "" then String.◌++◌ "name:" s.normalized_name else s.id

module _ (lower : Char → Char) (refreshed_at : Time) where
  unfoldable pub prepared : Session → Session
  prepared s = record s {
    timestamp = refreshed_at;
    normalized_name = normalize_session_name lower s.name;
  }

  unfoldable pub prepare_from : Map ℕ → List Session → List Session → List Session
  prepare_from indexes current [] = current
  prepare_from indexes current (s ∷ upstream) =
      let s' = prepared s in
      let found = get (identity s') indexes in
      prepare_from (note_place found (identity s') (length current) indexes)
        (place found s' current) upstream

  unfoldable pub prepare_current_sessions : List Session → List Session
  prepare_current_sessions upstream = prepare_from [] [] upstream

-- the history of the new snapshot; a snapshot with no time of its own counts as none
abbrev pub next_snapshots : Option Snapshot → List Snapshot
next_snapshots none = []
next_snapshots (some existing) =
    if eqb (last_cached existing) 0
    then []
    else keep_last max_snapshots
        (map without_history (to_list (history existing)) ++ without_history existing ∷ [])

-- every failure to read counts as no snapshot
abbrev pub existing_of : Reply Snapshot → Option Snapshot
existing_of (hit s) = some s
existing_of miss = none
existing_of broken = none

module _ {W : Type 0} (store : Store W) where
  abbrev pub after_names : Bool × W → Outcome × W
  after_names (true, w) = (done, w)
  after_names (false, w) = (job_failed, w)

  abbrev pub write_names : List Session → Bool × W → Outcome × W
  write_names sessions (true, w) = after_names (
      store.set_json Shape.names_shape key_session_names (map (λ s. s.normalized_name) sessions) 0
        w)
  write_names sessions (false, w) = (job_failed, w)

  abbrev pub write_snapshot : List Session → Time → Reply Snapshot × W → Outcome × W
  write_snapshot sessions now (reply, w) = write_names sessions (
      store.set_json Shape.sessions_shape key_active_sessions
        (snapshot sessions now (from_list (next_snapshots (existing_of reply)))) cache_ttl w)

  abbrev pub refresh : (Char → Char) → Time → Option (List Session) × W → Outcome × W
  refresh lower now (none, w) = (job_failed, w)
  refresh lower now (some sessions, w) =
      write_snapshot (prepare_current_sessions lower now sessions) now
        (store.get_json Shape.sessions_shape key_active_sessions w)

  -- `Run`
  unfoldable pub run : SessionsClient W → (Char → Char) → Time → W → Outcome × W
  run client lower now w = refresh lower now (client w)
