-- ===== src/Router/Signed.antt =====
-- From a signed link to the answers of the machine API.
use text.Mathlib.TextLemmas.{append_assoc}
use Prim.Native.String.{◌++◌}
use politburo.Prelude.{
  ◌+◌, ◌≤◌, String, true, false, Option, some, ltb, if◌then◌else◌, length, ◌==◌, ◌≡◌, ◌≢◌, ◌⊎◌, inl,
  inr, refl, sym, ap, subst, ◌∙◌, arith,
}
use politburo.Strings.{has_prefix}
use politburo.Strings.Laws.{append_of_has_prefix, has_prefix_of_append}
use politburo.Upstream.{Time}
use politburo.Auth.{Claims}
use politburo.Auth.Url.{format_login_url}
use politburo.Auth.Tickets.{encode_hex, Bytes, IsCipher, issue}
use politburo.Middleware.{Lookup, found, absent, failed}
use politburo.Middleware.AccessLog.{logged, access_log}
use politburo.Middleware.Authenticate.{is_game_api_path, after_session, authenticate_api}
use politburo.Cache.{Shape, Store}
use politburo.Cache.Keys.{key_login_ticket}
use politburo.Cache.Contract.{Contract}
use politburo.BrowserSession.{ttl}
use politburo.BrowserSession.Cookie.{session_id_from_request}
use politburo.BrowserSession.Service.{lookup}
use politburo.BrowserSession.Service.Laws.{stored}
use politburo.Http
use politburo.Http.{Request, Response, Handler, Headers, with_claims}
use politburo.Users.{User}
use politburo.ApiKeys.Lookup.{Database}
use politburo.Api.SignedLink.{UserLookup, Link, generate_signed_link}
use politburo.Ui.Laws.{sign_in}
use politburo.Ui.Link.{member_claims, generate_signed_link-login}
use politburo.Router.{Reply, is_panic, Site, routes, recovering, router}
use politburo.Router.Guarded.{IsChi, cors-next, logged_status}
use politburo.Router.Wiring.{Drawn, wired, wired-IsChi}

under_api : (path : String) → is_game_api_path path ≡ true → has_prefix path "/api/v1" ≡ true
unfolding is_game_api_path
under_api path game =
    let (rest, e) = append_of_has_prefix path "/api/v1/game/" game in
    subst (λ p. has_prefix p "/api/v1" ≡ true) (sym (append_assoc "/api/v1" "/game/" rest) ∙ sym e)
      (has_prefix_of_append "/api/v1" ("/game/" ++ rest))

module _ {W : Type 0} (site : Site W) where
  -- what the routes do with claims, in the state that the lookup of the session leaves
  pub data Serves (c : Claims) (r : Request) (w : W) (p : Response Reply × W) : Type 0 where
    by_routes :
        (h' : Headers)
        → p
          ≡ site.recovered h' r (
              logged is_panic site.pattern site.observe r
                (routes site h' (with_claims r c) (site.sessions r w).1))
        → Serves c r w p

module _ {W : Type 0} (site : Site W) (chi : IsChi site) where
  -- what the middleware before the routes answers
  abbrev passed : Headers → Request → Lookup × W → Response Reply × W
  passed h r p =
      logged is_panic site.pattern site.observe r (after_session site.api_keys (routes site) h r p)

  session_branch :
      (next : Handler W Reply) (h : Headers) (r : Request) (w : W)
      → is_game_api_path r.path ≡ true
      → authenticate_api (some site.api_keys) (some site.sessions) next h r w
        ≡ after_session site.api_keys next h r (site.sessions r w)
  unfolding authenticate_api
  session_branch next h r w game = rw (under_api r.path game, game) refl

  recovering-passed :
      (h : Headers) (r : Request) (w : W) (l : Lookup)
      → is_game_api_path r.path ≡ true
      → (site.sessions r w).0 ≡ l
      → recovering site h r w ≡ site.recovered h r (passed h r (l, (site.sessions r w).1))
  unfolding recovering access_log
  recovering-passed h r w l game e =
      ap (λ p. site.recovered h r (logged is_panic site.pattern site.observe r p))
        (session_branch (routes site) h r w game)
      ∙ ap (λ l. site.recovered h r (passed h r (l, (site.sessions r w).1))) e

  -- A request for the game data that is no preflight is served for the claims that the session
  -- lookup finds.
  router-Serves :
      (h : Headers) (r : Request) (w : W) (c : Claims)
      → is_game_api_path r.path ≡ true
      → (r.method == "OPTIONS") ≡ false
      → (site.sessions r w).0 ≡ found c
      → Serves site c r w (router site h r w)
  unfolding router
  router-Serves h r w c game plain e =
      let (h', through) = cors-next site.allowed_origins h r w plain in
      rw (chi.request_id_same, through (recovering site))
        (by_routes h' (recovering-passed h' r w (found c) game e))

  -- A request for the game data that is no preflight is answered with 500 when the session lookup
  -- fails.
  router_failed :
      (h : Headers) (r : Request) (w : W)
      → is_game_api_path r.path ≡ true
      → (r.method == "OPTIONS") ≡ false
      → (site.sessions r w).0 ≡ failed
      → (router site h r w).0.status ≡ 500
  unfolding router
  router_failed h r w game plain e =
      let (h', through) = cors-next site.allowed_origins h r w plain in
      rw (chi.request_id_same, through (recovering site))
        (ap (λ p. p.0.status) (recovering-passed h' r w failed game e)
          ∙ logged_status site chi h' r _ 500 refl (inr refl))

module _ {W : Type 0} (site : Site W) (chi : IsChi site) (law : IsCipher site.cipher)
    (store : Store W) (c : Contract store) (db : Database W) (cookie : Headers) where
  -- the router of the program for a request that draws so much
  abbrev pub our_site : Drawn → Site W
  our_site drawn = wired store db cookie drawn site

  -- What the machine API answers to a user who was signed in: 500, or what the routes do for the
  -- claims of the user.
  abbrev pub Answers : Drawn → Claims → Request → W → Response Reply × W → Type 0
  Answers drawn claims r w p = (p.0.status ≡ 500) ⊎ Serves (our_site drawn) claims r w p

  -- Whoever opens the URL of a link that was generated, while the cache holds its ticket as the link
  -- left it, and is signed in by it, gets from then on,
  -- for seven days and as long as the cache holds the session, each request for the game data
  -- answered, but for preflights, with what the routes do for the claims of the user of the link, or
  -- with 500.
  pub generate_signed_link-router :
      (id nonce : Bytes) (size : length nonce ≡ site.cipher.nonce_size) (users : UserLookup W)
      (escape : String → String) (injective : (a b : String) → escape a ≡ escape b → a ≡ b)
      (base : String) (h : Headers) (r : Request) (w w' w₁ : W) (body : Option String)
      (answer : Response Link) (d : Link) (uuid : String) (now : Time) (opening returning : Request)
      (w'' : W) (drawn : Drawn) (h' : Headers)
      → generate_signed_link users
          (issue site.cipher store site.secret (some id) (some nonce))
          escape
          base
          h
          body
          r
          w
        ≡ (answer, w')
      → answer.body ≡ Http.Body.payload d
      → c.holds Shape.ticket_shape (key_login_ticket (encode_hex id)) w₁
        ≡ c.holds Shape.ticket_shape (key_login_ticket (encode_hex id)) w'
      → d.url ≡ format_login_url escape base opening.query_token
      → (sign_in site.web store cookie site.cipher site.secret uuid now opening w₁).0.status ≡ 303
      → stored store c uuid w''
        ≡ stored store c uuid
            (sign_in site.web store cookie site.cipher site.secret uuid now opening w₁).1
      → session_id_from_request returning ≡ uuid
      → uuid ≢ ""
      → drawn.now ≤ now + ttl
      → is_game_api_path returning.path ≡ true
      → (returning.method == "OPTIONS") ≡ false
      → (claims : Claims) × (user : User) × (r.claims ≡ some claims)
        × ((users claims.ds_user_id w).0 ≡ some (some user))
        × Answers drawn
            (member_claims user claims)
            returning
            w''
            (router (our_site drawn) h' returning w'')
  generate_signed_link-router id nonce size users escape injective base h r w w' w₁ body answer d
        uuid now opening returning w'' drawn h' made shown unspent opened signed kept carried given
        live game plain =
      let (claims, user, carries, known, looked) =
        generate_signed_link-login site.cipher law store c site.secret id nonce size users escape
          injective base h r w w' w₁ body answer d site.web cookie uuid now drawn.now opening
          returning w'' made shown unspent opened signed kept carried given in
      let ours : IsChi (our_site drawn) = wired-IsChi store db cookie drawn site chi in
      let in_time : ltb (now + ttl) drawn.now ≡ false = ground arith in
      (
        claims,
        user,
        carries,
        known,
        elim looked [
          | inl e ↦ inl (router_failed (our_site drawn) ours h' returning w'' game plain e)
          | inr e ↦
              let at : (lookup store drawn.now returning w'').0
                  ≡ found (member_claims user claims) =
                e ∙ ap (λ b. if b then absent else found (member_claims user claims)) in_time in
              inr (router-Serves (our_site drawn) ours h' returning w'' _ game plain at)
        ],
      )
