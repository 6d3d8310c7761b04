-- ===== src/Router.antt =====
-- internal/transport/http/server.go: the router, without the listener and its shutdown. What
-- internal/api/generated/politburo makes of a request is an argument, like what chi's own middleware
-- and the handlers of other packages do.
pub mod Guarded
pub mod Reads
pub mod Kept
pub mod Wiring
pub mod Signed
use politburo.Prelude.{
  ℕ, Char, String, Bool, true, false, eqb, Option, none, some, List, [], ◌==◌, ◌&&◌, ◌||◌,
  if◌then◌else◌,
}
use politburo.Ints.{Int64}
use politburo.Strings.{has_prefix}
use politburo.Upstream.{Time}
use politburo.Auth.Tickets.{Bytes, Cipher}
use politburo.Flights.{default_page_number, default_page_length}
use politburo.Flights.Token.{Json}
use politburo.Cache.{Store}
use politburo.Http.{
  Request, Response, Headers, Handler, Body, empty, text, failure, payload, write_error,
}
use politburo.Middleware.Authenticate.{KeyLookup, SessionLookup, authenticate_api}
use politburo.Middleware.Roles.{ui_session_auth}
use politburo.Middleware.Cors.{cors}
use politburo.Middleware.AccessLog.{access_log}
use politburo.Api.Health.{Health, get_liveness, get_readiness}
use politburo.Api.Sessions
use politburo.Api.Flights
use politburo.Api.Flights.{Query, Served, served, panicked}
use politburo.Api.Flights.Active
use politburo.Api.Flights.Trimmed.{get_trimmed_active_flights}
use politburo.Api.Flights.Detail.{get_active_flight}
use politburo.Api.SignedLink.{UserLookup, TicketIssuer, Link, generate_signed_link}
use politburo.Ui.{Web, TicketConsumer, SessionManager, dashboard, active_flights_map, login, logout}

-- the parameters of the two lists of flights
pub record FlightsParams : Type 0 where
  pub server_id : String
  pub pilot_state : Option (List String)
  pub user_name : Option String
  pub call_sign : Option String
  pub page_number : Option Int64
  pub page_length : Option Int64

-- What the generated code makes of a request: a call of one of the operations of `apiHandler`, or an
-- error of a parameter.
pub data ApiCall : Type 0 where
  liveness : ApiCall
  readiness : ApiCall
  active_sessions : Option Bool → ApiCall
  active_flights : FlightsParams → ApiCall
  trimmed_flights : FlightsParams → ApiCall
  active_flight : String → ApiCall
  signed_link : ApiCall
  bad_parameter : String → ApiCall

-- what the routes lead to
pub data Route : Type 0 where
  api : ApiCall → Route
  metrics : Route
  login_page : Route
  logout_page : Route
  dashboard_page : Route
  map_page : Route
  static_file : Route
  unmatched : Route

-- the routes whose handlers write tickets and sessions
abbrev pub signs_in : Route → Bool
signs_in (api signed_link) = true
signs_in login_page = true
signs_in route = false

-- What a response of the program carries.
pub data Reply : Type 0 where
  health_reply : Health → Reply
  sessions_reply : Sessions.Body → Reply
  flights_reply : Flights.Body → Reply
  link_reply : Link → Reply
  page_reply : String → Reply
  other_reply : String → Reply

abbrev map_body : {A : Type 0} → (A → Reply) → Body A → Body Reply
map_body f empty = empty
map_body f (text t) = text t
map_body f (failure code message) = failure code message
map_body f (payload a) = payload (f a)

abbrev pub replied : {W A : Type 0} → (A → Reply) → Response A × W → Response Reply × W
replied f (r, w) = (record { status = r.status; headers = r.headers; body = map_body f r.body }, w)

-- A panic of a handler stands in the place of its response, with the status 0.
abbrev pub of_served : {W : Type 0} → Served W → Response Reply × W
of_served (served r) = replied flights_reply r
of_served (panicked w) = (record { status = 0; headers = []; body = empty }, w)

-- no response has the status 0
abbrev pub is_panic : Response Reply → Bool
is_panic r = eqb r.status 0

abbrev pub page_value : Option Int64 → Int64 → Int64
page_value none fallback = fallback
page_value (some value) fallback = value

abbrev pub string_value : Option String → String
string_value none = ""
string_value (some value) = value

abbrev pub list_value : Option (List String) → List String
list_value none = []
list_value (some states) = states

unfoldable pub flights_query : FlightsParams → Int64 → Int64 → Query
flights_query p page_number page_length = record {
  server_id = p.server_id;
  pilot_states = list_value p.pilot_state;
  user_name = string_value p.user_name;
  call_sign = string_value p.call_sign;
  page_number = page_number;
  page_length = page_length;
}

-- `writeParameterError`
abbrev pub write_parameter_error : {W B : Type 0} → Headers → String → W → Response B × W
write_parameter_error h message w = write_error h 400 "INVALID_QUERY_FILTER" message w

-- What the handlers of the router are made of: the parts of the app, and what other packages do.
pub record Site (W : Type 0) : Type 0 where
  pub store : Store W
  pub cipher : Cipher
  pub json : Json
  pub secret : Bytes
  pub draw : W → Option Bytes × W
  pub lower : Char → Char
  pub started_at : Time
  pub uptime : String
  pub ping_database : W → Bool × W
  pub ping_redis : W → Bool × W
  pub users : UserLookup W
  pub issuer : TicketIssuer W
  pub escape : String → String
  pub ui_base_url : String
  pub link_body : Request → Option String
  pub web : Web
  pub consumer : TicketConsumer W
  pub manager : SessionManager W
  pub api_keys : KeyLookup W
  pub sessions : SessionLookup W
  pub allowed_origins : List String
  pub api_call : Request → Option ApiCall
  pub pattern : Request → String
  pub observe : String → String → ℕ → W → W
  pub metrics_handler : Handler W Reply
  pub static_handler : Handler W Reply
  pub not_found : Handler W Reply
  pub request_id : Handler W Reply → Handler W Reply
  pub recovered : Headers → Request → Response Reply × W → Response Reply × W

module _ {W : Type 0} (site : Site W) where
  -- the methods of `apiHandler`
  unfoldable pub call_api : ApiCall → Handler W Reply
  unfolding flights_query
  call_api liveness h r w = replied health_reply (get_liveness site.started_at site.uptime h w)
  call_api readiness h r w =
      replied health_reply (get_readiness site.ping_database site.ping_redis h w)
  call_api (active_sessions history) h r w =
      replied sessions_reply (Sessions.get_active_sessions site.store h history w)
  call_api (active_flights p) h r w = of_served (
      Active.get_active_flights site.store h site.lower
        (flights_query p (page_value p.page_number default_page_number)
          (page_value p.page_length default_page_length))
        w)
  call_api (trimmed_flights p) h r w = replied flights_reply (
      get_trimmed_active_flights site.cipher site.json site.secret site.draw h site.store site.lower
        (flights_query p 0 0) w)
  call_api (active_flight flight_id) h r w =
      replied flights_reply
        (get_active_flight h site.cipher site.json site.secret site.store flight_id w)
  call_api signed_link h r w = replied link_reply (
      generate_signed_link site.users site.issuer site.escape site.ui_base_url h (site.link_body r)
        r w)
  call_api (bad_parameter message) h r w = write_parameter_error h message w

  abbrev pub dashboard_handler : Handler W Reply
  dashboard_handler h r w = replied page_reply (dashboard site.web h w)

  abbrev pub map_handler : Handler W Reply
  map_handler h r w = replied page_reply (active_flights_map site.web h w)

  -- the routes; the patterns do not overlap
  unfoldable pub dispatch : Route → Handler W Reply
  unfolding call_api
  dispatch (api call) h r w = call_api call h r w
  dispatch metrics h r w = site.metrics_handler h r w
  dispatch login_page h r w = replied page_reply (login site.web site.consumer site.manager h r w)
  dispatch logout_page h r w = replied page_reply (logout site.web site.consumer site.manager h r w)
  dispatch dashboard_page h r w = ui_session_auth (some site.sessions) dashboard_handler h r w
  dispatch map_page h r w = ui_session_auth (some site.sessions) map_handler h r w
  dispatch static_file h r w = site.static_handler h r w
  dispatch unmatched h r w = site.not_found h r w

  abbrev pub own_route : Bool → String → Route
  own_route get path =
      if path == "/metrics"
      then metrics
      else if get && (path == "/auth/login")
      then login_page
      else if get && (path == "/auth/logout")
      then logout_page
      else if get && (path == "/dashboard" || path == "/dashboard/")
      then dashboard_page
      else if get && (path == "/maps/flights/active")
      then map_page
      else if has_prefix path "/static/"
      then static_file
      else unmatched

  abbrev pub api_or_own : Option ApiCall → Route → Route
  api_or_own none own = own
  api_or_own (some call) own = api call

  -- where chi leads a request, whose raw path is taken to be its path
  unfoldable pub route_of : Request → Route
  route_of r = api_or_own (site.api_call r) (own_route (r.method == "GET") r.path)

  unfoldable pub routes : Handler W Reply
  unfolding dispatch route_of
  routes h r w = dispatch (route_of r) h r w

  -- the middleware from the recoverer on; `recovered` is what `middleware.Recoverer` makes of the end
  -- of a handler
  unfoldable pub recovering : Handler W Reply
  unfolding routes
  recovering h r w = site.recovered h r (
      access_log is_panic site.pattern site.observe
        (authenticate_api (some site.api_keys) (some site.sessions) routes) h r w)

  -- `router`
  unfoldable pub router : Handler W Reply
  unfolding recovering
  router = site.request_id (cors site.allowed_origins recovering)
