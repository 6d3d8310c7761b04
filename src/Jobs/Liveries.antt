-- ===== src/Jobs/Liveries.antt =====
-- internal/jobs/liveries/job.go, without its log lines.
pub mod Kept
use politburo.Prelude.{Bool, true, false, Option, none, some, List, [], ◌∷◌, if◌then◌else◌}
use politburo.Upstream
use politburo.GameSessions.{Livery, cache_ttl}
use politburo.Cache.{Shape, Store}
use politburo.Cache.Keys.{key_livery}
use politburo.Jobs.{Outcome, done, job_failed}

-- `GetAircraftLiveries`; an error is `none`
abbrev pub LiveriesClient : Type 0 → Type 0
LiveriesClient W = W → Option (List Upstream.Livery) × W

abbrev pub livery_of : Upstream.Livery → Livery
livery_of item = record {
  id = item.id;
  aircraft_id = item.aircraft_id;
  aircraft_name = item.aircraft_name;
  livery_name = item.livery_name;
}

module _ {W : Type 0} (store : Store W) where
  abbrev pub set_livery : Upstream.Livery → W → Bool × W
  set_livery item w =
      let livery = livery_of item in
      store.set_json Shape.livery_shape (key_livery livery.id) livery cache_ttl w

  -- the loop, which ends at the first write that fails
  unfoldable pub write_all : List Upstream.Livery → W → Outcome × W
  write_all [] w = (done, w)
  write_all (item ∷ upstream) w =
      let (ok, w') = set_livery item w in
      let rest = write_all upstream w' in if ok then rest else (job_failed, w')

  abbrev pub refresh : Option (List Upstream.Livery) × W → Outcome × W
  refresh (none, w) = (job_failed, w)
  refresh (some upstream, w) = write_all upstream w

  -- `Run`
  unfoldable pub run : LiveriesClient W → W → Outcome × W
  run client w = refresh (client w)
