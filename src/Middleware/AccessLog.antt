-- ===== src/Middleware/AccessLog.antt =====
-- internal/transport/http/middleware/accesslog.go, without its log line. `observe` counts a request by
-- its method, its route and its status in `Requests`, and its duration in `RequestDuration`;
-- `pattern` is the route that chi found, `""` for none.
use politburo.Prelude.{ℕ, String, Bool, ◌==◌, if◌then◌else◌}
use politburo.Http.{Request, Response, Handler}

abbrev pub route_name : (Request → String) → Request → String
route_name pattern r = if pattern r == "" then "unmatched" else pattern r

-- `panics` tells a response that stands for a panic of the handler: the lines after it do not run.
module _ {W B : Type 0} (panics : Response B → Bool) (pattern : Request → String)
    (observe : String → String → ℕ → W → W) where
  abbrev pub logged : Request → Response B × W → Response B × W
  logged r (response, w) = (
    response,
    if panics response then w else observe r.method (route_name pattern r) response.status w,
  )

  unfoldable pub access_log : Handler W B → Handler W B
  access_log next h r w = logged r (next h r w)
