-- ===== src/Middleware/Roles.antt =====
-- internal/transport/http/middleware/roles.go
pub mod Laws
use politburo.Prelude.{String, Bool, Option, none, some, not, if◌then◌else◌}
use Prim.Native.String.{◌++◌}
use politburo.Auth.{Claims, is_member, is_staff, is_admin}
use politburo.Http.{
  Request, Response, Headers, Handler, with_claims, write_error, http_error, redirect,
}
use politburo.Middleware.{Lookup, found, absent, failed}
use politburo.Middleware.Authenticate.{SessionLookup}

module _ {W B : Type 0} where
  abbrev pub after_lookup : Handler W B → Headers → Request → Lookup × W → Response B × W
  after_lookup next h r (failed, w) = http_error h "session lookup failed" 500 w
  after_lookup next h r (absent, w) = redirect h "/auth/login" w
  after_lookup next h r (found claims, w) = next h (with_claims r claims) w

  -- `UISessionAuth`
  unfoldable pub ui_session_auth : Option (SessionLookup W) → Handler W B → Handler W B
  ui_session_auth none next h r w = next h r w
  ui_session_auth (some lookup) next h r w = after_lookup next h r (lookup r w)

  abbrev forbidden : String → Headers → W → Response B × W
  forbidden label h w = write_error h 403 "FORBIDDEN" ("requires " ++ (label ++ " role")) w

  abbrev check_role : (Claims → Bool) → String → Handler W B → Option Claims → Handler W B
  check_role allowed label next none h r w = forbidden label h w
  check_role allowed label next (some claims) h r w =
      if not (allowed claims) then forbidden label h w else next h r w

  unfoldable pub require_role : (Claims → Bool) → String → Handler W B → Handler W B
  require_role allowed label next h r w = check_role allowed label next r.claims h r w

  unfoldable pub require_member : Handler W B → Handler W B
  unfolding require_role
  require_member = require_role is_member "member"

  unfoldable pub require_staff : Handler W B → Handler W B
  unfolding require_role
  require_staff = require_role is_staff "staff"

  unfoldable pub require_admin : Handler W B → Handler W B
  unfolding require_role
  require_admin = require_role is_admin "admin"
