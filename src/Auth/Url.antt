-- ===== src/Auth/Url.antt =====
-- internal/auth/url.go
pub mod Laws
use politburo.Prelude.{
  Char, code, String, Bool, Option, none, some, not, ◌||◌, ◌==◌, eqb, if◌then◌else◌,
}
use Prim.Native.String.{◌++◌}
use politburo.Strings.{trim_space, trim_right, has_prefix, contains}

abbrev pub default_redirect : String
default_redirect = "/dashboard"

-- `none` is the error "redirect must be a relative path".
unfoldable pub normalize_redirect : String → Option String
normalize_redirect path =
    let trimmed = trim_space path in
    if trimmed == ""
    then some default_redirect
    else if not (has_prefix trimmed "/") || has_prefix trimmed "//" || contains trimmed "://"
    then none
    else some trimmed

-- `escape` is `url.QueryEscape`.
unfoldable pub format_login_url : (String → String) → String → String → String
format_login_url escape base_url token =
    trim_right (λ c. eqb (code c) b'/') base_url ++ ("/auth/login?token=" ++ escape token)
