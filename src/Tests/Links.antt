-- ===== src/Tests/Links.antt =====
-- A signed link over the Redis in memory.
use politburo.Prelude.{String, true, none, some, [], ◌∷◌, ◌≡◌, refl}
use politburo.Auth.{Claims}
use politburo.Auth.Url.{normalize_redirect, format_login_url}
use politburo.Auth.Tickets.{issue, consume, encrypt_ticket_id, decrypt_ticket_id, encode_hex}
use politburo.Strings.{is_space, trim_left, trim_right, trim_space, has_prefix, contains}
use politburo.Users.{User}
use politburo.Http
use politburo.Http.{Request, Response}
use politburo.Cache.Redis.{State, set_json, get_del_json}
use politburo.Api.SignedLink.{UserLookup, TicketIssuer, Link, generate_signed_link}
use politburo.Tests.Unary.{unary, write_bytes, read_bytes}
use politburo.BrowserSession.Service.{create}
use politburo.Ui.{login}
use politburo.Ui.Laws.{sign_in}
use politburo.Cache.Keys.{key_login_ticket}
use politburo.Tests.Pages.{web, arriving}
use politburo.Tests.Memory.{Server, cache, empty_cache}

abbrev bot : Claims
bot = record {
  pb_user_id = "";
  role = "";
  ds_user_id = "d1";
  ds_server_id = "g1";
  pb_server_id = "";
  api_key_present = true;
}

abbrev pub request : Request
request = record {
  method = "POST";
  path = "/api/v1/auth/signed-link";
  header = λ name. "";
  session_cookie = none;
  remote_addr = "10.0.0.1:80";
  is_tls = true;
  query_token = "";
  claims = some bot;
}

abbrev ann : User
ann = record {
  id = "u1";
  discord_id = "d1";
  if_community_id = none;
  if_api_id = none;
  is_active = true;
  username = some "Ann";
  created_at = 1;
  updated_at = 1;
  otp = none;
}

abbrev pub users : UserLookup (State Server)
users id w = (some (some ann), w)

abbrev pub tickets : TicketIssuer (State Server)
tickets = issue unary cache [] (some (1 ∷ [])) (some (0 ∷ []))

abbrev pub same : String → String
same s = s

abbrev pub outcome : Response Link × State Server
outcome =
    generate_signed_link users tickets same "https://ui.example" [] (some "/maps") request
      empty_cache

abbrev pub link : Link
link = record {
  url = format_login_url same "https://ui.example" "bab";
  expires_in = 600;
  redirect_to = "/maps";
}

pub has_link : outcome.0.body ≡ Http.Body.payload link
unfolding generate_signed_link normalize_redirect has_prefix contains trim_space trim_left
    trim_right is_space issue encrypt_ticket_id set_json write_bytes
has_link = refl

-- the state after the link was opened
abbrev pub opened : State Server
opened = (sign_in web cache [] unary [] "s1" 5 arriving outcome.1).1

pub signed_in : (sign_in web cache [] unary [] "s1" 5 arriving outcome.1).0.status ≡ 303
unfolding login consume decrypt_ticket_id read_bytes get_del_json key_login_ticket encode_hex create
    set_json generate_signed_link normalize_redirect has_prefix contains trim_space trim_left
    trim_right is_space issue encrypt_ticket_id write_bytes
signed_in = refl
