-- ===== src/Router/Reads.antt =====
-- What the router does to the state, but for the routes of the signed link and of the login.
use politburo.Prelude.{ℕ, String, Bool, true, false, Option, ◌==◌, ◌≡◌, Bool-cases, inl, inr, eqb}
use politburo.Auth.{Claims}
use politburo.Flights.{default_page_number, default_page_length}
use politburo.GameSessions
use politburo.Cache.{Shape, hit, miss, broken}
use politburo.Cache
use politburo.Cache.Keys.{key_active_sessions}
use politburo.Http.{Request, Response, Headers, Handler, with_claims}
use politburo.Middleware.{Lookup, found, absent, failed}
use politburo.Middleware.Roles.{after_lookup, ui_session_auth}
use politburo.BrowserSession.Cookie.{session_id_from_request}
use politburo.Ui
use politburo.Ui.{Rendering, rendered, dashboard, active_flights_map, logout}
use politburo.Api.Health.{get_readiness, after_redis, after_database}
use politburo.Api.Sessions.{respond, get_active_sessions}
use politburo.Api.Flights.{Served, served, panicked}
use politburo.Api.Flights.Active.{get_active_flights}
use politburo.Api.Flights.Kept.{
  Serves, get_active_flights-keeps, get_trimmed_active_flights-keeps, get_active_flight-keeps,
}
use politburo.Router.{
  Reply, Site, ApiCall, liveness, readiness, active_sessions, active_flights, trimmed_flights,
  active_flight, signed_link, bad_parameter, Route, api, metrics, login_page, logout_page,
  dashboard_page, map_page, static_file, unmatched, of_served, flights_query, page_value, call_api,
  dashboard_handler, map_handler, signs_in, dispatch,
}

module _ {W : Type 0} (site : Site W) (P : W → Type 0) where
  -- what every other call of the router keeps
  pub record IsKept : Type 0 where
    pub reads : (t : Shape) (k : String) (w : W) → P w → P (site.store.get_json t k w).1
    pub draws : (w : W) → P w → P (site.draw w).1
    pub pings_database : (w : W) → P w → P (site.ping_database w).1
    pub pings_redis : (w : W) → P w → P (site.ping_redis w).1
    pub api_keys : (r : Request) (key : String) (w : W) → P w → P (site.api_keys r key w).1
    pub sessions : (r : Request) (w : W) → P w → P (site.sessions r w).1
    pub deletes : (id : String) (w : W) → P w → P (site.manager.delete id w).1
    pub observes :
        (method route : String) (status : ℕ) (w : W) → P w → P (site.observe method route status w)
    pub shows_metrics : (h : Headers) (r : Request) (w : W) → P w → P (site.metrics_handler h r w).1
    pub serves_files : (h : Headers) (r : Request) (w : W) → P w → P (site.static_handler h r w).1
    pub finds_none : (h : Headers) (r : Request) (w : W) → P w → P (site.not_found h r w).1
    pub recovers :
        (h : Headers) (r : Request) (p : Response Reply × W) → P p.1 → P (site.recovered h r p).1

  module _ (kept : IsKept) where
    -- a handler that keeps the property
    abbrev pub Keeps : Handler W Reply → Request → Type 0
    Keeps next r = (h : Headers) (w : W) → P w → P (next h r w).1

    respond-keeps :
        (h : Headers) (asked : Option Bool) (p : Cache.Reply GameSessions.Snapshot × W)
        → P p.1
        → P (respond site.store h asked p).1
    respond-keeps h asked (hit s, w) k = elim (Bool-cases (eqb (GameSessions.last_cached s) 0)) [
      | inl unset ↦ rw unset k
      | inr set ↦ rw set k
    ]
    respond-keeps h asked (miss, w) k = k
    respond-keeps h asked (broken, w) k = k

    after_redis-keeps :
        (h : Headers) (p : Bool × W)
        → P p.1
        → P (after_redis site.ping_database site.ping_redis h p).1
    after_redis-keeps h (true, w) k = k
    after_redis-keeps h (false, w) k = k

    after_database-keeps :
        (h : Headers) (p : Bool × W)
        → P p.1
        → P (after_database site.ping_database site.ping_redis h p).1
    after_database-keeps h (true, w) k =
        after_redis-keeps h (site.ping_redis w) (kept.pings_redis w k)
    after_database-keeps h (false, w) k = k

    of_served-keeps :
        (h : Headers) (s : Served W) → Serves site.store h P kept.reads s → P (of_served s).1
    of_served-keeps h (served r) k = k
    of_served-keeps h (panicked w) k = k

    call_api-Keeps :
        (call : ApiCall) (r : Request) → signs_in (api call) ≡ false → Keeps (call_api site call) r
    unfolding call_api get_readiness get_active_sessions
    call_api-Keeps liveness r plain h w k = k
    call_api-Keeps readiness r plain h w k =
        after_database-keeps h (site.ping_database w) (kept.pings_database w k)
    call_api-Keeps (active_sessions asked) r plain h w k =
        respond-keeps h asked (site.store.get_json Shape.sessions_shape key_active_sessions w)
          (kept.reads Shape.sessions_shape key_active_sessions w k)
    call_api-Keeps (active_flights p) r plain h w k =
        of_served-keeps h
          (get_active_flights site.store h site.lower
            (flights_query p (page_value p.page_number default_page_number)
              (page_value p.page_length default_page_length))
            w)
          (get_active_flights-keeps site.store h P kept.reads site.lower _ w k)
    call_api-Keeps (trimmed_flights p) r plain h w k =
        get_trimmed_active_flights-keeps site.store h P kept.reads site.cipher site.json site.secret
          site.draw kept.draws site.lower (flights_query p 0 0) w k
    call_api-Keeps (active_flight id) r plain h w k =
        get_active_flight-keeps site.store h P kept.reads site.cipher site.json site.secret id w k
    call_api-Keeps signed_link r plain h w k = cc
    call_api-Keeps (bad_parameter message) r plain h w k = k

    rendered-keeps : (p : Headers × Rendering) (w : W) → P w → P (rendered site.web p w).1
    rendered-keeps (h, Ui.whole page) w k = k
    rendered-keeps (h, Ui.cut page) w k = elim (Bool-cases (page == "")) [
      | inl blank ↦ rw blank k
      | inr given ↦ rw given k
    ]

    after_lookup-keeps :
        (next : Handler W Reply) (h : Headers) (r : Request) (p : Lookup × W)
        → ((c : Claims) → Keeps next (with_claims r c))
        → P p.1
        → P (after_lookup next h r p).1
    after_lookup-keeps next h r (found c, w) keeps k = keeps c h w k
    after_lookup-keeps next h r (absent, w) keeps k = k
    after_lookup-keeps next h r (failed, w) keeps k = k

    pub dispatch-Keeps :
        (route : Route) (r : Request) → signs_in route ≡ false → Keeps (dispatch site route) r
    unfolding dispatch ui_session_auth dashboard active_flights_map logout
    dispatch-Keeps (api call) r plain h w k = call_api-Keeps call r plain h w k
    dispatch-Keeps metrics r plain h w k = kept.shows_metrics h r w k
    dispatch-Keeps login_page r plain h w k = cc
    dispatch-Keeps logout_page r plain h w k = kept.deletes (session_id_from_request r) w k
    dispatch-Keeps dashboard_page r plain h w k =
        after_lookup-keeps (dashboard_handler site) h r (site.sessions r w)
          (λ c h' w' k'. rendered-keeps (Ui.render site.web h' "dashboard" "Politburo") w' k')
          (kept.sessions r w k)
    dispatch-Keeps map_page r plain h w k =
        after_lookup-keeps (map_handler site) h r (site.sessions r w)
          (λ c h' w' k'.
            rendered-keeps (Ui.render site.web h' "maps-active-flights" "Active flights") w' k')
          (kept.sessions r w k)
    dispatch-Keeps static_file r plain h w k = kept.serves_files h r w k
    dispatch-Keeps unmatched r plain h w k = kept.finds_none h r w k
