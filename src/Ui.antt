-- ===== src/Ui.antt =====
-- internal/transport/http/ui/handler.go: the pages of the dashboard, and the login and the logout of
-- a browser; `Render` is that of internal/ui/assets.go. Log lines are left out.
pub mod Laws
pub mod Link
use Prim.Native.String
use politburo.Prelude.{
  ℕ, String, Bool, true, false, Option, none, some, [], ◌∷◌, ◌++◌, ◌==◌, if◌then◌else◌,
}
use politburo.Upstream.{Time}
use politburo.Auth.{LoginTicket}
use politburo.Auth.Url.{default_redirect}
use politburo.Auth.Tickets.{Consumed, consumed, invalid, unavailable}
use politburo.BrowserSession.{Session}
use politburo.BrowserSession.Cookie.{Cookie, set_cookie, clear_cookie, session_id_from_request}
use politburo.BrowserSession.Service.{CreateInput}
use politburo.Http
use politburo.Http.{Request, Response, Headers, Handler, empty, text, payload, http_error}

-- What `ExecuteTemplate` writes: a page, or what it wrote before an error.
pub data Rendering : Type 0 where
  whole : String → Rendering
  cut : String → Rendering

-- `ticketConsumer`, `sessionManager`
abbrev pub TicketConsumer : Type 0 → Type 0
TicketConsumer W = String → W → Consumed × W

pub record SessionManager (W : Type 0) : Type 0 where
  pub create : CreateInput → W → Option Session × W
  pub delete : String → W → Bool × W

abbrev pub Page : Type 0
Page = Response String

-- `render name title` executes a template, `cookie_text` is the text of a `http.Cookie`, and
-- `location` the target that `http.Redirect` gives a path in.
pub record Web : Type 0 where
  pub render : String → String → Rendering
  pub cookie_text : Cookie → String
  pub location : Request → String → String

abbrev pub html_header : Headers → Headers
html_header h = h ++ ("Content-Type", "text/html; charset=utf-8") ∷ []

abbrev pub with_cookie : Web → Headers → Cookie → Headers
with_cookie web h c = h ++ ("Set-Cookie", web.cookie_text c) ∷ []

-- the text of a page whose status is sent before it
abbrev pub expired_page : Rendering → String
expired_page (whole page) = page
expired_page (cut page) = String.◌++◌ page "sign-in unavailable\n"

abbrev pub input_of : LoginTicket → CreateInput
input_of ticket = record {
  user_id = ticket.user_id;
  discord_id = ticket.discord_user_id;
  discord_server_id = ticket.discord_server_id;
  username = ticket.username;
}

-- `Render`, which sets the header before it executes the template
abbrev pub render : Web → Headers → String → String → Headers × Rendering
render web h name title = (html_header h, web.render name title)

module _ {W : Type 0} (web : Web) where
  -- `http.Redirect` at status 303
  abbrev pub see_other : Headers → Request → String → W → Page × W
  see_other h r target w = (
    record { status = 303; headers = h ++ ("Location", web.location r target) ∷ []; body = empty },
    w,
  )

  -- The status and the headers are sent with the first byte of a page; an error after it changes
  -- neither.
  abbrev pub rendered : Headers × Rendering → W → Page × W
  rendered (h, whole page) w = (record { status = 200; headers = h; body = payload page }, w)
  rendered (h, cut page) w = if page == "" then http_error h "template render failed" 500 w else (
    record {
      status = 200;
      headers = h;
      body = payload (String.◌++◌ page "template render failed\n");
    },
    w,
  )

  unfoldable pub dashboard : Headers → W → Page × W
  dashboard h w = rendered (render web h "dashboard" "Politburo") w

  unfoldable pub active_flights_map : Headers → W → Page × W
  active_flights_map h w = rendered (render web h "maps-active-flights" "Active flights") w

  unfoldable pub render_expired : Headers → W → Page × W
  render_expired h w = (
    record {
      status = 401;
      headers = html_header h;
      body = payload (expired_page (render web h "auth-login" "Sign-in link expired").1);
    },
    w,
  )

  abbrev pub with_session : Headers → Request → LoginTicket → Option Session × W → Page × W
  with_session h r ticket (none, w) = http_error h "session creation failed" 500 w
  with_session h r ticket (some created, w) =
      see_other (with_cookie web h (set_cookie r created.session_id)) r ticket.redirect_to w

  module _ (tickets : TicketConsumer W) (sessions : SessionManager W) where
    abbrev pub with_ticket : Headers → Request → Consumed × W → Page × W
    with_ticket h r (consumed ticket, w) =
        with_session h r ticket (sessions.create (input_of ticket) w)
    with_ticket h r (invalid, w) = render_expired h w
    with_ticket h r (unavailable, w) = render_expired h w

    unfoldable pub login : Handler W String
    unfolding render_expired
    login h r w =
        if r.query_token == ""
        then render_expired h w
        else with_ticket h r (tickets r.query_token w)

    unfoldable pub logout : Handler W String
    logout h r w =
        let (done, w') = sessions.delete (session_id_from_request r) w in
        see_other (with_cookie web h (clear_cookie r)) r default_redirect w'
