-- ===== src/Router/Kept.antt =====
-- What the middleware of the router does to the state, around routes that keep a property of it.
use politburo.Prelude.{false, some, ◌==◌, ◌&&◌, ◌++◌, not, ◌≡◌, ap, ◌∙◌, Bool-cases, inl, inr}
use politburo.Strings.{has_prefix, trim_space}
use politburo.Auth.{Claims}
use politburo.Http.{Request, Response, Headers, Handler, with_claims}
use politburo.Middleware.{Lookup, found, absent, failed}
use politburo.Middleware.Authenticate.{
  is_game_api_path, api_key_header, key_claims, after_key, with_key, after_session, try_session,
  authenticate_api,
}
use politburo.Middleware.Cors.{is_listed, cors_headers, cors}
use politburo.Middleware.AccessLog.{route_name, logged, access_log}
use politburo.Router.{
  Reply, is_panic, Site, signs_in, route_of, api_or_own, own_route, routes, recovering, router,
}
use politburo.Router.Guarded.{IsChi}
use politburo.Router.Reads.{IsKept, Keeps, dispatch-Keeps}

-- the routes do not depend on the claims of a request
abbrev pub RoutesApart : {W : Type 0} → Site W → Type 0
RoutesApart site = (r : Request) (c : Claims) → site.api_call (with_claims r c) ≡ site.api_call r

module _ {W : Type 0} (site : Site W) (P : W → Type 0) (kept : IsKept site P) where
  routes-Keeps :
      (r : Request) → signs_in (route_of site r) ≡ false → Keeps site P kept (routes site) r
  unfolding routes
  routes-Keeps r plain h w k = dispatch-Keeps site P kept (route_of site r) r plain h w k

  -- a handler that keeps the property for a request, whatever its claims
  abbrev KeepsAll : Handler W Reply → Request → Type 0
  KeepsAll next r =
      Keeps site P kept next r × ((c : Claims) → Keeps site P kept next (with_claims r c))

  after_key-keeps :
      (next : Handler W Reply) (h : Headers) (r : Request) (p : Lookup × W)
      → KeepsAll next r
      → P p.1
      → P (after_key next h r p).1
  after_key-keeps next h r (found c, w) keeps k = keeps.1 (key_claims r c) h w k
  after_key-keeps next h r (absent, w) keeps k = k
  after_key-keeps next h r (failed, w) keeps k = k

  with_key-Keeps :
      (next : Handler W Reply) (r : Request)
      → KeepsAll next r
      → Keeps site P kept (with_key site.api_keys next) r
  unfolding with_key
  with_key-Keeps next r keeps h w k =
      let key = trim_space (r.header api_key_header) in
      elim (Bool-cases (key == "")) [
        | inl blank ↦ rw blank k
        | inr given ↦
            rw given
              (after_key-keeps next h r (site.api_keys r key w) keeps (kept.api_keys r key w k))
      ]

  after_session-keeps :
      (next : Handler W Reply) (h : Headers) (r : Request) (p : Lookup × W)
      → KeepsAll next r
      → P p.1
      → P (after_session site.api_keys next h r p).1
  after_session-keeps next h r (found c, w) keeps k = keeps.1 c h w k
  after_session-keeps next h r (absent, w) keeps k = with_key-Keeps next r keeps h w k
  after_session-keeps next h r (failed, w) keeps k = k

  try_session-Keeps :
      (next : Handler W Reply) (r : Request)
      → KeepsAll next r
      → Keeps site P kept (try_session (some site.sessions) site.api_keys next) r
  try_session-Keeps next r keeps h w k = elim (Bool-cases (is_game_api_path r.path)) [
    | inl game ↦
        rw game (after_session-keeps next h r (site.sessions r w) keeps (kept.sessions r w k))
    | inr other ↦ rw other (with_key-Keeps next r keeps h w k)
  ]

  authenticate_api-Keeps :
      (next : Handler W Reply) (r : Request)
      → KeepsAll next r
      → Keeps site P kept (authenticate_api (some site.api_keys) (some site.sessions) next) r
  unfolding authenticate_api
  authenticate_api-Keeps next r keeps h w k = elim (Bool-cases (has_prefix r.path "/api/v1")) [
    | inl under ↦ rw under (try_session-Keeps next r keeps h w k)
    | inr outside ↦ rw outside (keeps.0 h w k)
  ]

  logged-keeps :
      (r : Request) (p : Response Reply × W)
      → P p.1
      → P (logged is_panic site.pattern site.observe r p).1
  logged-keeps r (a, w) k = elim (Bool-cases (is_panic a)) [
    | inl gone ↦ rw gone k
    | inr whole ↦ rw whole (kept.observes r.method (route_name site.pattern r) a.status w k)
  ]

  recovering-Keeps :
      (r : Request) → KeepsAll (routes site) r → Keeps site P kept (recovering site) r
  unfolding recovering access_log
  recovering-Keeps r keeps h w k =
      let p = authenticate_api (some site.api_keys) (some site.sessions) (routes site) h r w in
      kept.recovers h r (logged is_panic site.pattern site.observe r p)
        (logged-keeps r p (authenticate_api-Keeps (routes site) r keeps h w k))

  cors-Keeps :
      (next : Handler W Reply) (r : Request)
      → Keeps site P kept next r
      → Keeps site P kept (cors site.allowed_origins next) r
  unfolding cors
  cors-Keeps next r keeps h w k = elim (Bool-cases (r.header "Origin" == "")) [
    | inl blank ↦ rw blank (keeps h w k)
    | inr given ↦
        let unlisted =
          not (is_listed (r.header "Origin") site.allowed_origins)
          && not (is_listed "*" site.allowed_origins) in
        elim (Bool-cases unlisted) [
          | inl refused ↦ elim (Bool-cases (r.method == "OPTIONS")) [
            | inl asks ↦ rw (given, refused, asks) k
            | inr plain ↦ rw (given, refused, plain) (keeps h w k)
          ]
          | inr permitted ↦ elim (Bool-cases (r.method == "OPTIONS")) [
            | inl asks ↦ rw (given, permitted, asks) k
            | inr plain ↦
                rw (given, permitted, plain) (keeps (h ++ cors_headers (r.header "Origin")) w k)
          ]
        ]
  ]

  routed_same :
      (r : Request) (c : Claims)
      → RoutesApart site
      → route_of site (with_claims r c) ≡ route_of site r
  unfolding route_of
  routed_same r c apart =
      ap (λ call. api_or_own site call (own_route site (r.method == "GET") r.path)) (apart r c)

  -- A request that is led neither to the signed link nor to the login keeps what the lookups, the
  -- reads and the other handlers keep.
  pub router-keeps :
      (h : Headers) (r : Request) (w : W)
      → IsChi site
      → RoutesApart site
      → signs_in (route_of site r) ≡ false
      → P w
      → P (router site h r w).1
  unfolding router
  router-keeps h r w chi apart plain k =
      let keeps : KeepsAll (routes site) r = (
        routes-Keeps r plain,
        λ c. routes-Keeps (with_claims r c) (ap signs_in (routed_same r c apart) ∙ plain),
      ) in
      rw (chi.request_id_same) (cors-Keeps (recovering site) r (recovering-Keeps r keeps) h w k)
