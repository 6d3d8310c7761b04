-- ===== src/Router/Guarded.antt =====
-- Who gets past the middleware of the router.
use politburo.Prelude.{
  ℕ, String, true, false, some, List, ◌==◌, ◌&&◌, ◌++◌, not, ◌≡◌, ◌⊎◌, inl, inr, refl, ap, ◌∙◌,
  arith, Bool-cases,
}
use politburo.Strings.{has_prefix}
use politburo.Auth.{Claims}
use politburo.Http.{Request, Response, Headers, Handler, with_claims}
use politburo.Middleware.{Lookup, found, absent, failed}
use politburo.Middleware.Roles.{after_lookup, ui_session_auth}
use politburo.Middleware.Authenticate.{authenticate_api}
use politburo.Middleware.Authenticate.Laws.{
  Grant, Refusal, no_key, key_absent, key_failed, session_failed, answer_to,
  authenticate_api-Guards,
}
use politburo.Middleware.Cors.{is_listed, cors_headers, cors}
use politburo.Middleware.AccessLog.{route_name, logged, access_log}
use politburo.Router.{
  Reply, is_panic, Site, dashboard_page, map_page, route_of, dashboard_handler, map_handler,
  dispatch, routes, recovering, router,
}

-- What chi documents: a request id is set in the context, which is not modelled, and a handler that
-- does not panic is left alone.
pub record IsChi {W : Type 0} (site : Site W) : Type 0 where
  pub request_id_same : (next : Handler W Reply) → site.request_id next ≡ next
  pub recovered_same :
      (h : Headers) (r : Request) (p : Response Reply × W)
      → is_panic p.0 ≡ false
      → site.recovered h r p ≡ p

module _ {W B : Type 0} (allowed : List String) (h : Headers) (r : Request) (w : W) where
  -- any request but a preflight comes through
  pub cors-next :
      (r.method == "OPTIONS") ≡ false
      → (h' : Headers) × ((next : Handler W B) → cors allowed next h r w ≡ next h' r w)
  unfolding cors
  cors-next plain = elim (Bool-cases (r.header "Origin" == "")) [
    | inl blank ↦ (h, λ next. rw blank refl)
    | inr given ↦
        elim (Bool-cases
          (not (is_listed (r.header "Origin") allowed) && not (is_listed "*" allowed))) [
            | inl refused ↦ (h, λ next. rw (given, refused, plain) refl)
            | inr permitted ↦
                (h ++ cors_headers (r.header "Origin"), λ next. rw (given, permitted, plain) refl)
          ]
  ]

module _ {W : Type 0} (site : Site W) (chi : IsChi site) where
  -- What the router answers: what the routes do with the claims that a session or an API key granted,
  -- or, without the routes, 401 or 500.
  pub data Answer (r : Request) (w : W) (p : Response Reply × W) : Type 0 where
    let_through :
        (c : Claims) (w' : W) (h' : Headers)
        → Grant site.api_keys (some site.sessions) r w c w'
        → p
          ≡ site.recovered h' r
              (logged is_panic site.pattern site.observe r (routes site h' (with_claims r c) w'))
        → Answer r w p
    refused :
        (status : ℕ) (w' : W) (h' : Headers)
        → Refusal site.api_keys (some site.sessions) r w status w'
        → p.0 ≡ (answer_to site.api_keys (some site.sessions) h' status w').0
        → p.1 ≡ site.observe r.method (route_name site.pattern r) status w'
        → Answer r w p

  pub logged_status :
      (h : Headers) (r : Request) (p : Response Reply × W) (status : ℕ)
      → p.0.status ≡ status
      → (status ≡ 401) ⊎ (status ≡ 500)
      → (site.recovered h r (logged is_panic site.pattern site.observe r p)).0.status ≡ status
  logged_status h r (a, w) status e known =
      let whole : is_panic a ≡ false = elim known [
        | inl one ↦ ground (arith, e)
        | inr five ↦ ground (arith, e)
      ] in
      rw (chi.recovered_same h r _ whole) e

  -- an answer to a request that is turned away is counted, and comes through
  logged-refused :
      (h : Headers) (r : Request) (w w' : W) (status : ℕ)
      → Refusal site.api_keys (some site.sessions) r w status w'
      → site.recovered h r (
          logged is_panic site.pattern site.observe r
            (answer_to site.api_keys (some site.sessions) h status w'))
        ≡ (
          (answer_to site.api_keys (some site.sessions) h status w').0,
          site.observe r.method (route_name site.pattern r) status w',
        )
  logged-refused h r w w' status (no_key v before blank) = chi.recovered_same h r _ refl
  logged-refused h r w w' status (key_absent w₁ v before given e) = chi.recovered_same h r _ refl
  logged-refused h r w w' status (key_failed w₁ v before given e) = chi.recovered_same h r _ refl
  logged-refused h r w w' status (session_failed s v given game e) = chi.recovered_same h r _ refl

  recovering-Answer :
      (h : Headers) (r : Request) (w : W)
      → has_prefix r.path "/api/v1" ≡ true
      → Answer r w (recovering site h r w)
  unfolding recovering access_log
  recovering-Answer h r w under =
      elim (authenticate_api-Guards site.api_keys (some site.sessions) {B = Reply} h r w under) [
        | inl (c, w', grant, run) ↦ let_through c w' h grant (
            ap (λ p. site.recovered h r (logged is_panic site.pattern site.observe r p))
              (run (routes site)))
        | inr (status, w', why, run) ↦
            let whole =
              ap (λ p. site.recovered h r (logged is_panic site.pattern site.observe r p))
                (run (routes site))
              ∙ logged-refused h r w w' status why in
            refused status w' h why (ap (λ p. p.0) whole) (ap (λ p. p.1) whole)
      ]

  -- A request of the machine API that is no preflight reaches the routes with the claims that a
  -- session or an API key granted. Any other is answered without the routes: with 401 for a key that
  -- is blank or was not found, with 500 for a lookup that failed, in the state that the lookups and
  -- the count of the request leave.
  pub router-Answer :
      (h : Headers) (r : Request) (w : W)
      → has_prefix r.path "/api/v1" ≡ true
      → (r.method == "OPTIONS") ≡ false
      → Answer r w (router site h r w)
  unfolding router
  router-Answer h r w under plain =
      let (h', through) = cors-next site.allowed_origins h r w plain in
      rw (chi.request_id_same, through (recovering site)) (recovering-Answer h' r w under)

  page_status :
      (h : Headers) (r : Request) (p : Lookup × W) (page : Handler W Reply)
      → p.0 ≡ absent
      → (after_lookup page h r p).0.status ≡ 303
  page_status h r (absent, w) page e = refl
  page_status h r (found c, w) page e = cc
  page_status h r (failed, w) page e = cc

  routes_status :
      (h : Headers) (r : Request) (w : W)
      → (route_of site r ≡ dashboard_page) ⊎ (route_of site r ≡ map_page)
      → (site.sessions r w).0 ≡ absent
      → (routes site h r w).0.status ≡ 303
  unfolding routes dispatch ui_session_auth
  routes_status h r w (inl e) gone =
      rw e (page_status h r (site.sessions r w) (dashboard_handler site) gone)
  routes_status h r w (inr e) gone =
      rw e (page_status h r (site.sessions r w) (map_handler site) gone)

  authenticate_api-outside :
      (next : Handler W Reply) (h : Headers) (r : Request) (w : W)
      → has_prefix r.path "/api/v1" ≡ false
      → authenticate_api (some site.api_keys) (some site.sessions) next h r w ≡ next h r w
  unfolding authenticate_api
  authenticate_api-outside next h r w outside = rw outside refl

  recovering-routes :
      (h : Headers) (r : Request) (w : W)
      → has_prefix r.path "/api/v1" ≡ false
      → recovering site h r w
        ≡ site.recovered h r (logged is_panic site.pattern site.observe r (routes site h r w))
  unfolding recovering access_log
  recovering-routes h r w outside =
      ap (λ p. site.recovered h r (logged is_panic site.pattern site.observe r p))
        (authenticate_api-outside (routes site) h r w outside)

  -- Without a session, the dashboard and the map redirect, to the login.
  pub router-login :
      (h : Headers) (r : Request) (w : W)
      → (route_of site r ≡ dashboard_page) ⊎ (route_of site r ≡ map_page)
      → has_prefix r.path "/api/v1" ≡ false
      → (r.method == "OPTIONS") ≡ false
      → (site.sessions r w).0 ≡ absent
      → (router site h r w).0.status ≡ 303
  unfolding router
  router-login h r w page outside plain gone =
      let (h', through) = cors-next site.allowed_origins h r w plain in
      let status = routes_status h' r w page gone in
      let whole : is_panic (routes site h' r w).0 ≡ false = ground (arith, status) in
      rw
        (
          chi.request_id_same,
          through (recovering site),
          recovering-routes h' r w outside,
          chi.recovered_same h' r _ whole,
        )
        status
