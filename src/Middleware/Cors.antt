-- ===== src/Middleware/Cors.antt =====
-- middleware/cors.go
pub mod Laws
use politburo.Prelude.{
  String, Bool, true, false, List, [], ◌∷◌, ◌++◌, not, ◌==◌, ◌&&◌, ◌||◌, if◌then◌else◌,
}
use politburo.Http.{Request, Response, empty, Headers, Handler, http_error}

-- membership in the set `allowed`
unfoldable pub is_listed : String → List String → Bool
is_listed origin [] = false
is_listed origin (o ∷ os) = o == origin || is_listed origin os

abbrev pub cors_headers : String → Headers
cors_headers origin =
    ("Vary", "Origin")
    ∷ ("Access-Control-Allow-Origin", origin)
    ∷ ("Access-Control-Allow-Methods", "GET, OPTIONS")
    ∷ (
      "Access-Control-Allow-Headers",
      "Accept, Authorization, Content-Type, X-API-Key, X-Discord-User-Id, X-Discord-Server-Id",
    )
    ∷ ("Access-Control-Max-Age", "600")
    ∷ []

unfoldable pub cors : {W B : Type 0} → List String → Handler W B → Handler W B
cors allowed_origins next h r w =
    let origin = r.header "Origin" in
    let exact_match = is_listed origin allowed_origins in
    let wildcard = is_listed "*" allowed_origins in
    if origin == ""
    then next h r w
    else if not exact_match && not wildcard
    then if r.method == "OPTIONS" then http_error h "origin is not allowed" 403 w else next h r w
    else if r.method == "OPTIONS"
    then (record { status = 204; headers = h ++ cors_headers origin; body = empty }, w)
    else next (h ++ cors_headers origin) r w
