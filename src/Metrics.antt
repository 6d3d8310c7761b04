-- ===== src/Metrics.antt =====
-- internal/metrics/metrics.go: the metrics and their labels, and the calls of them in
-- internal/cache/store.go, internal/scheduler/scheduler.go and
-- internal/transport/http/middleware/accesslog.go. What a registry of Prometheus accepts is an
-- argument.
pub mod Labels
use Prim.Native.String
use politburo.Prelude.{
  ℕ, String, Bool, true, false, Option, none, some, List, [], ◌∷◌, ◌++◌, if◌then◌else◌,
}

-- `CounterVec` and `Counter`, `HistogramVec`, `GaugeVec`
pub data Kind : Type 0 where
  counter : Kind
  histogram : Kind
  gauge : Kind

-- the arguments of `ExponentialBuckets`, the first in tenths
pub record Buckets : Type 0 where
  pub start_tenths : ℕ
  pub factor : ℕ
  pub count : ℕ

pub record Collector : Type 0 where
  pub kind : Kind
  pub namespace : String
  pub subsystem : String
  pub name : String
  pub help : String
  pub buckets : Option Buckets
  pub labels : List String

abbrev pub vector : Kind → String → String → String → Option Buckets → List String → Collector
vector kind subsystem name help buckets labels = record {
  kind = kind;
  namespace = "politburo";
  subsystem = subsystem;
  name = name;
  help = help;
  buckets = buckets;
  labels = labels;
}

abbrev pub requests : Collector
requests =
    vector counter "http" "requests_total" "Total HTTP requests." none
      ("method" ∷ "route" ∷ "status" ∷ [])

abbrev pub request_duration : Collector
request_duration =
    vector histogram "http" "request_duration_seconds" "HTTP request duration in seconds." none
      ("method" ∷ "route" ∷ [])

abbrev pub cache_operations : Collector
cache_operations =
    vector counter "cache" "operations_total" "Total cache operations by operation and outcome."
      none ("operation" ∷ "outcome" ∷ [])

abbrev pub cache_operation_duration : Collector
cache_operation_duration =
    vector histogram "cache" "operation_duration_seconds" "Cache operation duration in seconds."
      none ("operation" ∷ [])

abbrev pub cache_payload_bytes : Collector
cache_payload_bytes =
    vector histogram "cache" "payload_bytes" "Encoded cache payload size in bytes by operation."
      (some (record { start_tenths = 1280; factor = 4; count = 9 })) ("operation" ∷ [])

abbrev pub cache_inserts : Collector
cache_inserts = vector counter "cache" "inserts_total" "Total successful cache inserts." none []

abbrev pub job_runs : Collector
job_runs =
    vector counter "jobs" "runs_total" "Total scheduled job runs by job and outcome." none
      ("job" ∷ "outcome" ∷ [])

abbrev pub job_duration : Collector
job_duration =
    vector histogram "jobs" "run_duration_seconds" "Scheduled job run duration in seconds."
      (some (record { start_tenths = 1; factor = 2; count = 12 })) ("job" ∷ [])

abbrev pub job_running : Collector
job_running =
    vector gauge "jobs" "running" "Whether a scheduled job is currently running." none ("job" ∷ [])

abbrev pub job_last_success : Collector
job_last_success =
    vector gauge "jobs" "last_success_timestamp_seconds"
      "Unix timestamp of the last successful scheduled job run." none ("job" ∷ [])

-- the arguments of `MustRegister`, in their order
abbrev pub collectors : List Collector
collectors =
    requests ∷ request_duration ∷ cache_operations ∷ cache_operation_duration ∷ cache_payload_bytes
    ∷ cache_inserts ∷ job_runs ∷ job_duration ∷ job_running ∷ job_last_success ∷ []

-- `Register`, beside what is registered before; `false` is an error
abbrev pub Register : Type 0
Register = List Collector → Collector → Bool

-- `MustRegister`: `none` is a panic
unfoldable pub must_register : Register → List Collector → List Collector → Option (List Collector)
must_register accepts registered [] = some registered
must_register accepts registered (c ∷ cs) =
    let rest = must_register accepts (registered ++ c ∷ []) cs in
    if accepts registered c then rest else none

-- `NewRegistry`: what its registry of Prometheus has
unfoldable pub new_registry : Register → Option (List Collector)
new_registry accepts = must_register accepts [] collectors

-- a call of `WithLabelValues`, or of a counter without labels
abbrev pub Use : Type 0
Use = Collector × List String

-- `observe` of the cache
abbrev pub cache_uses : String → String → List Use
cache_uses operation outcome =
    (cache_operations, operation ∷ outcome ∷ []) ∷ (cache_operation_duration, operation ∷ []) ∷ []

abbrev pub payload_use : String → Use
payload_use operation = (cache_payload_bytes, operation ∷ [])

abbrev pub insert_use : Use
insert_use = (cache_inserts, [])

-- `run` of the scheduler: its first lines, its deferred function, and its last line
abbrev pub begin_uses : String → List Use
begin_uses name = (job_running, name ∷ []) ∷ []

abbrev pub end_uses : String → String → List Use
end_uses name outcome =
    (job_running, name ∷ []) ∷ (job_runs, name ∷ outcome ∷ []) ∷ (job_duration, name ∷ []) ∷ []

abbrev pub success_use : String → Use
success_use name = (job_last_success, name ∷ [])

-- `AccessLog`
abbrev pub request_uses : String → String → String → List Use
request_uses method route status =
    (requests, method ∷ route ∷ status ∷ []) ∷ (request_duration, method ∷ route ∷ []) ∷ []
