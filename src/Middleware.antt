-- ===== src/Middleware.antt =====
-- internal/transport/http/middleware: the guards around the handlers.
pub mod Authenticate
pub mod Roles
pub mod Cors
pub mod RateLimit
pub mod AccessLog
use politburo.Auth.{Claims}

-- The results `(claims, ok, err)` of a lookup: `absent` is `ok = false`, `failed` an error.
pub data Lookup : Type 0 where
  found : Claims → Lookup
  absent : Lookup
  failed : Lookup
