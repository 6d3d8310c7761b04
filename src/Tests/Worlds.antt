-- ===== src/Tests/Worlds.antt =====
-- A link that is asked for and opened, over the Redis in memory.
use politburo.Prelude.{◌+◌, ◌≤◌, true, false, ◌==◌, if◌then◌else◌, none, some, [], ◌∷◌, ◌≡◌, refl}
use politburo.Strings.{is_space, trim_left, trim_right, trim_space, has_prefix, contains}
use politburo.Auth.{Claims}
use politburo.Auth.Url.{normalize_redirect}
use politburo.Auth.Tickets.{issue, consume, encrypt_ticket_id, decrypt_ticket_id, encode_hex}
use politburo.Cache.{Shape}
use politburo.Cache.Redis.{State, get_json, set_json, get_del_json}
use politburo.Cache.Keys.{key_login_ticket, key_session}
use politburo.BrowserSession.Service.{create, get, lookup}
use politburo.BrowserSession.Cookie.{session_id_from_request}
use politburo.Middleware.{found, absent}
use politburo.ApiKeys.Lookup.{no_rows}
use politburo.Api.SignedLink.{generate_signed_link}
use politburo.Ui.{login}
use politburo.Ui.Laws.{manager}
use politburo.System.{
  World, Outside, lifted, lifted_store, issuing, consuming, Step, links, logs_in, Reachable,
  at_start, then_step,
}
use politburo.System.Fades.{Fades, Fades-refl}
use politburo.System.Served.{IsQuiet, AreSteady, router-Fades}
use politburo.System.Answered.{Admitted, router-Admitted}
use politburo.Http.{Request, Handler, text}
use politburo.Router.{Site, Reply, active_sessions, signs_in, route_of, router}
use politburo.Router.Wiring.{Drawn, wired}
use politburo.Tests.Samples.{same_char}
use politburo.Tests.Markers.{json, secret, draw}
use politburo.Tests.Sites.{under_api}
use politburo.System.Sound.{count, present, ticket_at}
use politburo.System.Genuine.{HasNone, IsGenuine, lookup-IsGenuine, taken_le_issued}
use politburo.Tests.Unary.{unary, read_bytes, write_bytes}
use politburo.Tests.Pages.{web, arriving, returning}
use politburo.Tests.Links.{users, tickets, same, request}
use politburo.Tests.Memory.{Server, cache, cache-Contract, empty_cache, holds-empty_cache}

abbrev plain : Handler (World (State Server)) Reply
plain h r v = (record { status = 200; headers = h; body = text "" }, v)

-- `wired` replaces the store, the lookups, the tickets and the sessions
abbrev site : Site (World (State Server))
site = record {
  store = lifted_store cache;
  cipher = unary;
  json = json;
  secret = secret;
  draw = lifted draw;
  lower = same_char;
  started_at = 1;
  uptime = "1s";
  ping_database = λ v. (true, v);
  ping_redis = λ v. (true, v);
  users = λ k. lifted (users k);
  issuer = λ ticket. lifted (tickets ticket);
  escape = same;
  ui_base_url = "https://ui.example";
  link_body = λ r. none;
  web = web;
  consumer = consuming cache unary [];
  manager = manager web (lifted_store cache) [] "s1" 5;
  api_keys = λ r key v. (absent, v);
  sessions = λ r v. (absent, v);
  allowed_origins = "https://a" ∷ [];
  api_call =
      λ r. if r.path == "/api/v1/game/sessions/active" then some (active_sessions none) else none;
  pattern = λ r. r.path;
  observe = λ method route status v. v;
  metrics_handler = plain;
  static_handler = plain;
  not_found = plain;
  request_id = λ next. next;
  recovered = λ h r p. p;
}

abbrev outside : Outside (State Server)
outside = record {
  users = users;
  database = λ key w. (no_rows, w);
  sessions = λ w. (none, w);
  liveries = λ w. (none, w);
  flights = λ id w. (none, w);
  site = site;
}

still : (v : World (State Server)) → Fades cache cache-Contract v v
still v = Fades-refl cache cache-Contract v

site-IsQuiet : IsQuiet cache cache-Contract site
site-IsQuiet = record {
  draws = λ v. still v;
  pings_database = λ v. still v;
  pings_redis = λ v. still v;
  observes = λ method route status v. still v;
  shows_metrics = λ h r v. still v;
  serves_files = λ h r v. still v;
  finds_none = λ h r v. still v;
  recovers = λ h r p. still p.1;
  same_id = record { request_id_same = λ next. refl; recovered_same = λ h r p e. refl };
  apart = λ r claims. refl;
}

outside-AreSteady : AreSteady cache cache-Contract outside
outside-AreSteady = record {
  users = λ id t k w. refl;
  database = λ key t k w. refl;
  sessions = λ t k w. refl;
  liveries = λ t k w. refl;
  flights = λ id t k w. refl;
  site = site-IsQuiet;
}

empty_cache-HasNone : HasNone cache unary [] cache-Contract outside web empty_cache
empty_cache-HasNone = record {
  no_ticket = λ k. holds-empty_cache Shape.ticket_shape (key_login_ticket k);
  no_session = λ k. holds-empty_cache Shape.session_shape (key_session k);
}

abbrev first : World (State Server)
first = record { state = empty_cache; log = record { issued = []; taken = []; asked = [] } }

abbrev linked : World (State Server)
linked =
    (generate_signed_link (λ k. lifted (users k))
      (issuing cache unary [] request.claims (some (1 ∷ [])) (some (0 ∷ []))) same
      "https://ui.example" [] (some "/maps") request first).1

abbrev opened : World (State Server)
opened =
    (login web (consuming cache unary []) (manager web (lifted_store cache) [] "s1" 5) [] arriving
      linked).1

opened-Reachable : Reachable cache unary [] cache-Contract outside web empty_cache opened
opened-Reachable =
    let one : Step cache unary [] cache-Contract outside web first linked =
      links (some (1 ∷ [])) (some (0 ∷ [])) same "https://ui.example" [] (some "/maps") request in
    let two : Step cache unary [] cache-Contract outside web linked opened =
      logs_in "s1" 5 [] arriving in
    then_step (then_step at_start one) two

abbrev granted : Claims
granted = record {
  pb_user_id = "u1";
  role = "";
  ds_user_id = "d1";
  ds_server_id = "g1";
  pb_server_id = "";
  api_key_present = false;
}

was_found : (lookup cache 9 returning opened.state).0 ≡ found granted
unfolding login consume decrypt_ticket_id read_bytes get_del_json key_login_ticket encode_hex create
    set_json generate_signed_link normalize_redirect has_prefix contains trim_space trim_left
    trim_right is_space issue encrypt_ticket_id write_bytes lookup get get_json key_session
    session_id_from_request
was_found = refl

lookup-IsGenuine_example :
    IsGenuine cache unary [] cache-Contract outside web opened 9 returning granted
lookup-IsGenuine_example =
    lookup-IsGenuine cache unary [] cache-Contract outside web empty_cache opened 9 returning
      granted empty_cache-HasNone outside-AreSteady opened-Reachable was_found

taken_le_issued_example :
    count "01" opened.log.taken + present (ticket_at cache cache-Contract users "01" opened.state)
    ≤ count "01" opened.log.issued
taken_le_issued_example =
    taken_le_issued cache unary [] cache-Contract outside web empty_cache opened "01"
      empty_cache-HasNone outside-AreSteady opened-Reachable

abbrev drawn : Drawn
drawn = record { now = 9; uuid = "s2"; ticket_id = none; nonce = none }

abbrev asked : Request
asked = record returning { path = "/api/v1/game/sessions/active" }

plainly : signs_in (route_of site asked) ≡ false
unfolding route_of
plainly = refl

router-Fades_example :
    Fades cache cache-Contract opened
      (router
        (wired (lifted_store cache) (λ k. lifted (outside.database k)) [] drawn site)
        []
        asked
        opened).1
router-Fades_example =
    router-Fades cache cache-Contract outside.database outside-AreSteady.database site site-IsQuiet
      [] drawn [] asked opened plainly

router-Admitted_example :
    Admitted cache unary [] cache-Contract outside web outside-AreSteady [] drawn opened asked (
      router
        (wired (lifted_store cache) (λ k. lifted (outside.database k)) [] drawn site)
        []
        asked
        opened)
router-Admitted_example =
    router-Admitted cache unary [] cache-Contract outside web outside-AreSteady [] drawn empty_cache
      opened [] asked empty_cache-HasNone opened-Reachable under_api refl
