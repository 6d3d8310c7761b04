-- ===== src/GameSessions.antt =====
-- internal/game/sessions and internal/game/liveries: the other entries of the game cache.
use politburo.Prelude.{ℕ, ◌*◌, String, List, [], ◌∷◌}
use politburo.Ints.{Int64}
use politburo.Upstream
use politburo.Upstream.{Time}

-- a day, in nanoseconds
abbrev pub cache_ttl : ℕ
cache_ttl = 24 * 3600 * 1000000000

-- `RefreshInterval / time.Minute`
abbrev pub refresh_interval_minutes : Int64
refresh_interval_minutes = 5

-- `Snapshot` and its last field, `History []Snapshot`
mutual
  pub data Snapshot : Type 0 where
    snapshot : List Upstream.Session → Time → Snapshots → Snapshot

  pub data Snapshots : Type 0 where
    nil : Snapshots
    cons : Snapshot → Snapshots → Snapshots

abbrev pub result : Snapshot → List Upstream.Session
result (snapshot r t h) = r

abbrev pub last_cached : Snapshot → Time
last_cached (snapshot r t h) = t

abbrev pub history : Snapshot → Snapshots
history (snapshot r t h) = h

abbrev pub to_list : Snapshots → List Snapshot
to_list nil = []
to_list (cons s h) = s ∷ to_list h

abbrev pub from_list : List Snapshot → Snapshots
from_list [] = nil
from_list (s ∷ h) = cons s (from_list h)

-- `snapshot.History = nil`
abbrev pub without_history : Snapshot → Snapshot
without_history (snapshot r t h) = snapshot r t nil

-- `gameliveries.Livery`
pub record Livery : Type 0 where
  pub id : String
  pub aircraft_id : String
  pub aircraft_name : String
  pub livery_name : String
