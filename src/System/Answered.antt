-- ===== src/System/Answered.antt =====
-- Whom the machine API answers, in every state that the program comes to.
use politburo.Prelude.{
  ℕ, String, true, false, some, ◌==◌, ◌≡◌, ◌≢◌, ◌⊎◌, inl, inr, refl, sym, ap, ◌∙◌, Bool-cases,
}
use politburo.Strings.{has_prefix}
use politburo.Upstream.{Time}
use politburo.Auth.{Claims}
use politburo.Auth.Tickets.{Bytes, Cipher}
use politburo.Http.{Request, Response, Headers, with_claims}
use politburo.Middleware.{found, absent}
use politburo.Middleware.AccessLog.{route_name, logged}
use politburo.Middleware.Authenticate.{SessionLookup, is_game_api_path, key_claims}
use politburo.Middleware.Authenticate.Laws.{
  api_key, NoSession, Refusal, answer_to, by_session, by_key,
}
use politburo.Cache
use politburo.Cache.{Shape, Reply, hit, miss, broken}
use politburo.Cache.Contract.{Contract}
use politburo.Cache.Keys.{key_session}
use politburo.BrowserSession.{Session, expired}
use politburo.BrowserSession.Cookie.{session_id_from_request}
use politburo.BrowserSession.Service.{delete, get, checked, as_lookup, lookup}
use politburo.Ui.{Web}
use politburo.ApiKeys.Lookup.{key_only}
use politburo.ApiKeys.Lookup.Active.{IsActive, lookup-IsActive}
use politburo.Router
use politburo.Router.{Site, is_panic, routes, router}
use politburo.Router.Guarded.{IsChi, Answer, let_through, refused, router-Answer}
use politburo.Router.Wiring.{Drawn, wired-IsChi}
use politburo.System.{World, Outside, lifted, lifted_store, Reachable}
use politburo.System.Served.{AreSteady, ours}
use politburo.System.Genuine.{HasNone, IsGenuine, lookup-IsGenuine}

module _ {W : Type 0} (store : Cache.Store W) (now : Time) where
  delete-lifted :
      (id : String) (v : World W) → delete (lifted_store store) id v ≡ lifted (delete store id) v
  unfolding delete
  delete-lifted id v = elim (Bool-cases (id == "")) [
    | inl blank ↦ rw blank refl
    | inr named ↦ rw named refl
  ]

  checked-lifted :
      (id : String) (v : World W) (p : Reply Session × W)
      → as_lookup
          (lifted_store store)
          (checked (lifted_store store) id now (p.0, record v { state = p.1 }))
        ≡ lifted (λ w. as_lookup store (checked store id now (p.0, w))) (record v { state = p.1 })
  checked-lifted id v (hit s, w) = elim (Bool-cases (expired s now)) [
    | inl old ↦ rw (old, delete-lifted id (record v { state = w })) refl
    | inr live ↦ rw live refl
  ]
  checked-lifted id v (miss, w) = refl
  checked-lifted id v (broken, w) = refl

  lookup-lifted :
      (r : Request) (v : World W)
      → lookup (lifted_store store) now r v ≡ lifted (lookup store now r) v
  unfolding lookup get
  lookup-lifted r v =
      let id = session_id_from_request r in
      elim (Bool-cases (id == "")) [
        | inl blank ↦ rw blank refl
        | inr named ↦
            rw named
              (checked-lifted id v (store.get_json Shape.session_shape (key_session id) v.state))
      ]

module _ {W : Type 0} (store : Cache.Store W) (g : Cipher) (secret : Bytes) (c : Contract store)
    (o : Outside W) (web : Web) (steady : AreSteady store c o) (cookie : Headers)
    (drawn : Drawn) where
  -- the router of the program, with the services that it opens
  abbrev pub our_site : Site (World W)
  our_site = ours store c o.database o.site cookie drawn

  -- a key that the cache or the database calls active
  abbrev pub IsAccepted : String → World W → Type 0
  IsAccepted key v = IsActive (lifted_store store) (λ k. lifted (o.database k)) key v

  -- the state in which the key is looked up: no session was looked for, or none was found
  abbrev pub IsAsked : World W → Request → World W → Type 0
  IsAsked v r seen = (seen ≡ v) ⊎ (lookup (lifted_store store) drawn.now r v ≡ (absent, seen))

  -- what a request of the machine API is answered
  pub data Admitted (v : World W) (r : Request) (p : Response Router.Reply × World W) : Type 0 where
    by_cookie :
        (claims : Claims) (v' : World W) (h' : Headers)
        → lookup (lifted_store store) drawn.now r v ≡ (found claims, v')
        → IsGenuine store g secret c o web v drawn.now r claims
        → is_game_api_path r.path ≡ true
        → p
          ≡ o.site.recovered h' r (
              logged is_panic o.site.pattern o.site.observe r
                (routes our_site h' (with_claims r claims) v'))
        → Admitted v r p
    by_api_key :
        (seen v' : World W) (h' : Headers)
        → IsAsked v r seen
        → api_key r ≢ ""
        → our_site.api_keys r (api_key r) seen ≡ (found key_only, v')
        → IsAccepted (api_key r) seen
        → p
          ≡ o.site.recovered h' r (
              logged is_panic o.site.pattern o.site.observe r
                (routes our_site h' (with_claims r (key_claims r key_only)) v'))
        → Admitted v r p
    turned_away :
        (status : ℕ) (v' : World W) (h' : Headers)
        → Refusal our_site.api_keys (some our_site.sessions) r v status v'
        → p.0 ≡ (answer_to our_site.api_keys (some our_site.sessions) h' status v').0
        → p.1 ≡ o.site.observe r.method (route_name o.site.pattern r) status v'
        → Admitted v r p

  our_site-IsChi : IsChi our_site
  our_site-IsChi =
      wired-IsChi (lifted_store store) (λ k. lifted (o.database k)) cookie drawn o.site
        steady.site.same_id

  found_by_ours :
      (v v' : World W) (r : Request) (cl : Claims) (s : SessionLookup (World W))
      → some our_site.sessions ≡ some s
      → s r v ≡ (found cl, v')
      → lookup (lifted_store store) drawn.now r v ≡ (found cl, v')
  found_by_ours v v' r cl s e run =
      let ours_found : our_site.sessions ≡ s = cc in ap (λ f. f r v) ours_found ∙ run

  found-IsGenuine :
      (w : W) (v v' : World W) (r : Request) (cl : Claims)
      → HasNone store g secret c o web w
      → Reachable store g secret c o web w v
      → lookup (lifted_store store) drawn.now r v ≡ (found cl, v')
      → IsGenuine store g secret c o web v drawn.now r cl
  found-IsGenuine w v v' r cl empty reached run =
      lookup-IsGenuine store g secret c o web w v drawn.now r cl empty steady reached
        (ap (λ p. p.0) (sym (lookup-lifted store drawn.now r v) ∙ run))

  none_yet-IsAsked :
      (v : World W) (r : Request) (seen : World W)
      → NoSession our_site.api_keys (some our_site.sessions) r v seen
      → IsAsked v r seen
  none_yet-IsAsked v r seen (inl e) = inl e
  none_yet-IsAsked v r seen (inr (s, e, run)) =
      let ours_found : our_site.sessions ≡ s = cc in inr (ap (λ f. f r v) ours_found ∙ run)

  Answer-Admitted :
      (w : W) (v : World W) (r : Request) (p : Response Router.Reply × World W)
      → HasNone store g secret c o web w
      → Reachable store g secret c o web w v
      → Answer our_site our_site-IsChi r v p
      → Admitted v r p
  Answer-Admitted w v r p empty reached (let_through cl v' h' (by_session s e game run) q) =
      let ran = found_by_ours v v' r cl s e run in
      by_cookie cl v' h' ran (found-IsGenuine w v v' r cl empty reached ran) game q
  Answer-Admitted w v r p empty reached
        (let_through cl v' h' (by_key seen known none_yet key run e) q) =
      let (active, bare) =
        lookup-IsActive (lifted_store store) (λ k. lifted (o.database k)) (api_key r) r seen known
          (ap (λ p. p.0) run) in
      let same : cl ≡ key_claims r key_only = e ∙ ap (key_claims r) bare in
      by_api_key seen v' h' (none_yet-IsAsked v r seen none_yet) key
        (run ∙ ap (λ claims. (found claims, v')) bare) active
        (q
          ∙ ap
              (λ claims. o.site.recovered h' r (
                logged is_panic o.site.pattern o.site.observe r
                  (routes our_site h' (with_claims r claims) v')))
              same)
  Answer-Admitted w v r p empty reached (refused status v' h' why same at) =
      turned_away status v' h' why same at

  -- However the requests, the jobs and the expiry of entries follow each other from a cache without
  -- tickets and sessions, the router answers a request of the machine API that is no preflight in
  -- one of three ways: with 401 or 500, without the routes; under the paths of the game, with what the routes do for
  -- claims that stand on an issued and consumed ticket; or with what they do for the Discord ids in
  -- the headers and no other claims, after no session was found or looked for and the cache or the
  -- database called its API key active. The database and the API are taken to leave the cache as it
  -- is, and the parts of the router that are not the program's own to write no ticket and no
  -- session.
  pub router-Admitted :
      (w : W) (v : World W) (h : Headers) (r : Request)
      → HasNone store g secret c o web w
      → Reachable store g secret c o web w v
      → has_prefix r.path "/api/v1" ≡ true
      → (r.method == "OPTIONS") ≡ false
      → Admitted v r (router our_site h r v)
  router-Admitted w v h r empty reached under plain =
      Answer-Admitted w v r (router our_site h r v) empty reached
        (router-Answer our_site our_site-IsChi h r v under plain)
