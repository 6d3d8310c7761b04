-- ===== src/BrowserSession/Cookie.antt =====
-- internal/session/cookie.go
use politburo.Prelude.{◌-◌, ◌^◌, String, Bool, true, Option, none, some, ◌||◌}
use politburo.Ints.{Int64}
use politburo.Strings.{trim_space, equal_fold_https}
use politburo.Http.{Request}

abbrev pub cookie_name : String
cookie_name = "session_id"

-- in seconds
abbrev pub cookie_max_age : Int64
cookie_max_age = 604800

abbrev minus_one : Int64
minus_one = 2 ^ 64 - 1

pub record Cookie : Type 0 where
  pub name : String
  pub value : String
  pub path : String
  pub http_only : Bool
  pub secure : Bool
  pub same_site : String
  pub max_age : Int64

unfoldable pub cookie_secure : Request → Bool
cookie_secure r = r.is_tls || equal_fold_https (r.header "X-Forwarded-Proto")

unfoldable pub session_cookie : Request → String → Int64 → Cookie
unfolding cookie_secure
session_cookie r value max_age = record {
  name = cookie_name;
  value = value;
  path = "/";
  http_only = true;
  secure = cookie_secure r;
  same_site = "Lax";
  max_age = max_age;
}

-- what `SetCookie` and `ClearCookie` add to the response
unfoldable pub set_cookie : Request → String → Cookie
unfolding session_cookie
set_cookie r session_id = session_cookie r session_id cookie_max_age

unfoldable pub clear_cookie : Request → Cookie
unfolding session_cookie
clear_cookie r = session_cookie r "" minus_one

abbrev trimmed_value : Option String → String
trimmed_value none = ""
trimmed_value (some value) = trim_space value

unfoldable pub session_id_from_request : Request → String
session_id_from_request r = trimmed_value r.session_cookie
