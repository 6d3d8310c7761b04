-- ===== src/Tests/Pages.antt =====
-- The login and the logout of a browser over the Redis in memory.
use politburo.Prelude.{String, true, none, some, [], ◌==◌, if◌then◌else◌, ◌≡◌, ◌≢◌, refl}
use politburo.Auth.{LoginTicket}
use politburo.Auth.Tickets.{consume, encode_hex, decrypt_ticket_id}
use politburo.Strings.{trim_space, trim_left, trim_right, is_space}
use politburo.Cache.Keys.{key_login_ticket}
use politburo.Cache.Redis.{State, set_json, get_del_json}
use politburo.BrowserSession.Cookie.{session_id_from_request}
use politburo.BrowserSession.Service.{create}
use politburo.Http.{Request}
use politburo.Ui.{Web, whole, login}
use politburo.Ui.Laws.{sign_in}
use politburo.Tests.Unary.{unary, read_bytes}
use politburo.Tests.Memory.{ticket_doc, Server, cache, empty_cache}

abbrev pub web : Web
web = record {
  render = λ name title. whole title;
  cookie_text = λ c. c.value;
  location = λ r target. target;
}

abbrev ticket : LoginTicket
ticket = record {
  user_id = "u1";
  discord_user_id = "d1";
  discord_server_id = "g1";
  username = "Ann";
  redirect_to = "/maps";
}

-- a cache with the ticket whose token is `bab`
abbrev stocked : State Server
stocked = record empty_cache {
  server = λ k. if k == "auth:login_ticket:01" then some (ticket_doc ticket) else none;
}

abbrev pub arriving : Request
arriving = record {
  method = "GET";
  path = "/auth/login";
  header = λ name. "";
  session_cookie = none;
  remote_addr = "10.0.0.1:80";
  is_tls = true;
  query_token = "bab";
  claims = none;
}

abbrev pub returning : Request
returning = record arriving { session_cookie = some "s1" }

abbrev after : State Server
after = (sign_in web cache [] unary [] "s1" 5 arriving stocked).1

signed_in : (sign_in web cache [] unary [] "s1" 5 arriving stocked).0.status ≡ 303
unfolding login consume decrypt_ticket_id read_bytes get_del_json key_login_ticket encode_hex create
    set_json
signed_in = refl

pub carried : session_id_from_request returning ≡ "s1"
unfolding session_id_from_request trim_space trim_left trim_right is_space
carried = refl

pub named : ◌≢◌ {A = String} "s1" ""
named e = cc
