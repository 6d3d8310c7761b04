-- ===== src/Tests/Sites.antt =====
-- A router over the Redis in memory, for requests without credentials.
use politburo.Prelude.{arith, true, none, some, [], ◌∷◌, ◌==◌, if◌then◌else◌, ◌≡◌, refl}
use politburo.Strings.{has_prefix}
use politburo.Auth.Tickets.{consume}
use politburo.Middleware.{absent}
use politburo.Cache.Redis.{State}
use politburo.Http.{Request, Handler, text}
use politburo.Router.{Site, Reply, active_sessions, router}
use politburo.Router.Guarded.{IsChi, Answer, router-Answer}
use politburo.Ui.Laws.{manager}
use politburo.Ui.Link.{member_claims}
use politburo.Users.{User}
use politburo.Auth.{Claims}
use politburo.ApiKeys.Lookup.{Database, no_rows}
use politburo.Middleware.Authenticate.{is_game_api_path}
use politburo.BrowserSession.Cookie.{session_id_from_request}
use politburo.Router.Wiring.{Drawn, wired}
use politburo.Router.Signed.{Answers, generate_signed_link-router}
use politburo.Tests.Unary.{unary, unary-IsCipher}
use politburo.Tests.Samples.{same_char}
use politburo.Tests.Markers.{json, secret, draw}
use politburo.Tests.Pages.{web, arriving, returning, carried, named}
use politburo.Tests.Links.{
  users, tickets, same, request, outcome, link, has_link, opened, signed_in,
}
use politburo.Tests.Memory.{Server, cache, cache-Contract, empty_cache}

abbrev plain : Handler (State Server) Reply
plain h r w = (record { status = 200; headers = h; body = text "" }, w)

abbrev site : Site (State Server)
site = record {
  store = cache;
  cipher = unary;
  json = json;
  secret = secret;
  draw = draw;
  lower = same_char;
  started_at = 1;
  uptime = "1s";
  ping_database = λ w. (true, w);
  ping_redis = λ w. (true, w);
  users = users;
  issuer = tickets;
  escape = same;
  ui_base_url = "https://ui.example";
  link_body = λ r. none;
  web = web;
  consumer = consume unary cache [];
  manager = manager web cache [] "s1" 5;
  api_keys = λ r key w. (absent, w);
  sessions = λ r w. (absent, w);
  allowed_origins = "https://a" ∷ [];
  api_call =
      λ r. if r.path == "/api/v1/game/sessions/active" then some (active_sessions none) else none;
  pattern = λ r. r.path;
  observe = λ method route status w. w;
  metrics_handler = plain;
  static_handler = plain;
  not_found = plain;
  request_id = λ next. next;
  recovered = λ h r p. p;
}

site-IsChi : IsChi site
site-IsChi = record { request_id_same = λ next. refl; recovered_same = λ h r p e. refl }

abbrev api_request : Request
api_request = record arriving { path = "/api/v1/game/sessions/active" }

pub under_api : has_prefix "/api/v1/game/sessions/active" "/api/v1" ≡ true
unfolding has_prefix
under_api = refl

router-Answer_example :
    Answer site site-IsChi api_request empty_cache (router site [] api_request empty_cache)
router-Answer_example = router-Answer site site-IsChi [] api_request empty_cache under_api refl

abbrev no_keys : Database (State Server)
no_keys key w = (no_rows, w)

-- a site with the secret of the links
abbrev linked : Site (State Server)
linked = record site { secret = [] }

linked-IsChi : IsChi linked
linked-IsChi = record { request_id_same = λ next. refl; recovered_same = λ h r p e. refl }

abbrev drawn : Drawn
drawn = record { now = 9; uuid = "s2"; ticket_id = none; nonce = none }

abbrev asked : Request
asked = record returning { path = "/api/v1/game/sessions/active" }

asked_carried : session_id_from_request asked ≡ "s1"
unfolding session_id_from_request
asked_carried = carried

of_game : is_game_api_path "/api/v1/game/sessions/active" ≡ true
unfolding is_game_api_path has_prefix
of_game = refl

generate_signed_link-router_example :
    (claims : Claims) × (user : User) × (request.claims ≡ some claims)
    × ((users claims.ds_user_id empty_cache).0 ≡ some (some user))
    × Answers linked linked-IsChi unary-IsCipher cache cache-Contract no_keys [] drawn
        (member_claims user claims)
        asked
        opened
        (router (wired cache no_keys [] drawn linked) [] asked opened)
generate_signed_link-router_example =
    generate_signed_link-router linked linked-IsChi unary-IsCipher cache cache-Contract no_keys []
      (1 ∷ []) (0 ∷ []) refl users same (λ a b e. e) "https://ui.example" [] request empty_cache
      outcome.1 outcome.1 (some "/maps") outcome.0 link "s1" 5 arriving asked opened drawn [] refl
      has_link refl refl signed_in refl asked_carried named (omega arith) of_game refl
