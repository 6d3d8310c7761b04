-- ===== src/Middleware/Cors/Laws.antt =====
-- Which origins a browser may read the responses from.
use politburo.Prelude.{
  String, Bool, none, some, List, [], ◌∷◌, ◌++◌, ◌==◌, ◌&&◌, ◌||◌, not, get, if◌then◌else◌, ◌≡◌,
  refl, arith, Bool-cases, inl, inr,
}
use politburo.Http.{Request, Headers, Handler}
use politburo.Middleware.Cors.{is_listed, cors_headers, cors}

abbrev pub allow_origin : String
allow_origin = "Access-Control-Allow-Origin"

-- the request has an origin, and the configuration names it or `*`
abbrev pub is_permitted : List String → String → Bool
is_permitted allowed origin =
    not (origin == "") && (is_listed origin allowed || is_listed "*" allowed)

get-append_none : (k : String) (a b : Headers) → get k a ≡ none → get k (a ++ b) ≡ get k b
unfolding get
get-append_none k [] b h = refl
get-append_none k ((j, v) ∷ a) b h = ground (arith, get-append_none k a b)

get-append_some : (k v : String) (a b : Headers) → get k a ≡ some v → get k (a ++ b) ≡ some v
unfolding get
get-append_some k v [] b h = cc
get-append_some k v ((j, u) ∷ a) b h = ground (arith, get-append_some k v a b)

get-cors_headers : (origin : String) → get allow_origin (cors_headers origin) ≡ some origin
unfolding get
get-cors_headers origin = refl

-- A handler that sets headers behind those that it is given, and not this one.
abbrev pub IsPlain : {W B : Type 0} → Handler W B → Request → W → Type 0
IsPlain next r w =
    (h : Headers)
    → (own : Headers) × ((next h r w).0.headers ≡ h ++ own) × (get allow_origin own ≡ none)

module _ {W B : Type 0} (next : Handler W B) (r : Request) (w : W) (plain : IsPlain next r w) where
  next_bare : get allow_origin (next [] r w).0.headers ≡ none
  next_bare = let (own, e, absent) = plain [] in rw e absent

  next_granted :
      (origin : String) → get allow_origin (next (cors_headers origin) r w).0.headers ≡ some origin
  next_granted origin =
      let (own, e, absent) = plain (cors_headers origin) in
      rw e (get-append_some allow_origin origin (cors_headers origin) own (get-cors_headers origin))

-- Around a handler that does not set the header of the allowed origin itself, the response names
-- an allowed origin exactly if the request has an origin that the configuration permits, and then
-- it names that origin.
pub get-cors :
    {W B : Type 0} (allowed : List String) (next : Handler W B) (r : Request) (w : W)
    → IsPlain next r w
    → get allow_origin (cors allowed next [] r w).0.headers
      ≡ (if is_permitted allowed (r.header "Origin") then some (r.header "Origin") else none)
unfolding cors get
get-cors allowed next r w plain =
    let origin = r.header "Origin" in
    let bare = next_bare next r w plain in
    let granted = next_granted next r w plain origin in
    elim (Bool-cases (origin == "")) [
      | inl blank ↦ rw blank bare
      | inr given ↦ rw given (elim (Bool-cases (is_listed origin allowed)) [
        | inl listed ↦ rw listed (elim (Bool-cases (r.method == "OPTIONS")) [
          | inl preflight ↦ rw preflight (get-cors_headers origin)
          | inr request ↦ rw request granted
        ])
        | inr unlisted ↦ rw unlisted (elim (Bool-cases (is_listed "*" allowed)) [
          | inl wildcard ↦ rw wildcard (elim (Bool-cases (r.method == "OPTIONS")) [
            | inl preflight ↦ rw preflight (get-cors_headers origin)
            | inr request ↦ rw request granted
          ])
          | inr narrow ↦ rw narrow (elim (Bool-cases (r.method == "OPTIONS")) [
            | inl preflight ↦ rw preflight
            | inr request ↦ rw request bare
          ])
        ])
      ])
    ]
