-- ===== src/BrowserSession/Service/Laws.antt =====
-- The life of a session.
use politburo.Prelude.{
  eq_of_some, none≢some, ◌+◌, ◌≤◌, String, Bool, true, false, Option, none, some, ◌==◌,
  if◌then◌else◌, ◌≡◌, ◌≢◌, ◌⊎◌, inl, inr, refl, arith, eq_iff, Bool-cases, ltb, ap, sym, ◌∙◌,
}
use politburo.Upstream.{Time}
use politburo.Auth.{Claims}
use politburo.Http.{Request}
use politburo.Middleware.{Lookup, found, absent, failed}
use politburo.Cache.{Shape, Reply, hit, miss, broken, Store}
use politburo.Cache.Contract.{Contract, get_cases}
use politburo.Cache.Keys.{key_session}
use politburo.Cache.Keys.Laws.{key_session-ne}
use politburo.BrowserSession.{ttl, Session, claims}
use politburo.BrowserSession.Cookie.{session_id_from_request}
use politburo.BrowserSession.Service.{
  CreateInput, new_session, checked, as_lookup, created, create, delete, get, lookup,
}

abbrev answer_of : Reply Session → Lookup
answer_of (hit s) = found (claims s)
answer_of miss = absent
answer_of broken = failed

answer_of-if :
    (b : Bool) (s : Session)
    → answer_of (if b then miss else hit s) ≡ (if b then absent else found (claims s))
answer_of-if true s = refl
answer_of-if false s = refl

module _ {W : Type 0} (store : Store W) (c : Contract store) where
  -- What is held under the key of a session.
  abbrev pub stored : String → W → Option Session
  stored id w = c.holds Shape.session_shape (key_session id) w

  checked-hit :
      (id : String) (now : Time) (s : Session) (reply : Reply Session × W)
      → (checked store id now reply).0 ≡ hit s
      → (reply.0 ≡ hit s) × (now ≤ s.expires_at)
  checked-hit id now s (hit s', w) h = ground arith
  checked-hit id now s (miss, w) h = cc
  checked-hit id now s (broken, w) h = cc

  get-live :
      (id : String) (now : Time) (w : W) (s : Session)
      → (get store id now w).0 ≡ hit s
      → (stored id w ≡ some s) × (now ≤ s.expires_at)
  unfolding get
  get-live id now w s h =
      let (read, live) = checked-hit id now s _ h in
      (c.get_hit Shape.session_shape _ w s read, live)

  as_lookup-found :
      (reply : Reply Session × W) (cl : Claims)
      → (as_lookup store reply).0 ≡ found cl
      → (s : Session) × (reply.0 ≡ hit s) × (cl ≡ claims s)
  as_lookup-found (hit s, w) cl h = (s, refl, cc)
  as_lookup-found (miss, w) cl h = cc
  as_lookup-found (broken, w) cl h = cc

  absent≢found : {cl : Claims} → absent ≡ found cl → ⊥
  absent≢found e = cc

  -- A request is given claims only by a session that the cache holds under the id of its cookie and
  -- that has not expired; they are the claims of that session.
  pub lookup-found :
      (now : Time) (r : Request) (w : W) (cl : Claims)
      → (lookup store now r w).0 ≡ found cl
      → (session_id_from_request r ≢ "")
        × ((s : Session) × (stored (session_id_from_request r) w ≡ some s)
            × (now ≤ s.expires_at)
            × (cl ≡ claims s))
  unfolding lookup
  lookup-found now r w cl h =
      let id = session_id_from_request r in
      elim (Bool-cases (id == "")) [
        | inl blank ↦ absurd (absent≢found (rw blank at h))
        | inr given ↦
            let (s, read, same) = as_lookup-found (get store id now w) cl (rw given at h) in
            let (held, live) = get-live id now w s read in
            (ground (arith, eq_iff id ""), (s, held, live, same))
      ]

  checked-broken :
      (id : String) (now : Time) (reply : Reply Session × W)
      → reply.0 ≡ broken
      → (checked store id now reply).0 ≡ broken
  checked-broken id now (hit s, w) e = cc
  checked-broken id now (miss, w) e = cc
  checked-broken id now (broken, w) e = refl

  checked-miss :
      (id : String) (now : Time) (reply : Reply Session × W)
      → reply.0 ≡ miss
      → (checked store id now reply).0 ≡ miss
  checked-miss id now (hit s, w) e = cc
  checked-miss id now (miss, w) e = refl
  checked-miss id now (broken, w) e = cc

  checked-held :
      (id : String) (now : Time) (s : Session) (reply : Reply Session × W)
      → reply.0 ≡ hit s
      → (checked store id now reply).0 ≡ (if ltb s.expires_at now then miss else hit s)
  checked-held id now s (hit s', w) e = ground arith
  checked-held id now s (miss, w) e = cc
  checked-held id now s (broken, w) e = cc

  -- what is read while the cache holds a session
  get-held :
      (id : String) (now : Time) (w : W) (s : Session)
      → stored id w ≡ some s
      → ((get store id now w).0 ≡ broken)
        ⊎ ((get store id now w).0 ≡ (if ltb s.expires_at now then miss else hit s))
  unfolding get
  get-held id now w s held = elim (get_cases c Shape.session_shape (key_session id) w) [
    | inl b ↦ inl (checked-broken id now _ b)
    | inr (inl (v, read, holds)) ↦
        inr (checked-held id now s _ (read ∙ ap hit (eq_of_some (sym holds ∙ held))))
    | inr (inr (read, gone)) ↦ absurd (none≢some (sym gone ∙ held))
  ]

  get-gone :
      (id : String) (now : Time) (w : W)
      → stored id w ≡ none
      → ((get store id now w).0 ≡ broken) ⊎ ((get store id now w).0 ≡ miss)
  unfolding get
  get-gone id now w gone = elim (get_cases c Shape.session_shape (key_session id) w) [
    | inl b ↦ inl (checked-broken id now _ b)
    | inr (inl (v, read, holds)) ↦ absurd (none≢some (sym gone ∙ holds))
    | inr (inr (read, _)) ↦ inr (checked-miss id now _ read)
  ]

  as_lookup-eq :
      (reply : Reply Session × W) (rep : Reply Session)
      → reply.0 ≡ rep
      → (as_lookup store reply).0 ≡ answer_of rep
  as_lookup-eq (hit s, w) rep e = rw (← e)
  as_lookup-eq (miss, w) rep e = rw (← e)
  as_lookup-eq (broken, w) rep e = rw (← e)

  lookup-eq :
      (now : Time) (r : Request) (w : W) (rep : Reply Session)
      → session_id_from_request r ≢ ""
      → (get store (session_id_from_request r) now w).0 ≡ rep
      → (lookup store now r w).0 ≡ answer_of rep
  unfolding lookup
  lookup-eq now r w rep given e =
      let no_blank : (session_id_from_request r == "") ≡ false =
        ground (arith, eq_iff (session_id_from_request r) "") in
      rw no_blank (as_lookup-eq _ rep e)

  created-some :
      (s s' : Session) (p : Bool × W) (w' : W)
      → created store s p ≡ (some s', w')
      → (p.0 ≡ true) × (p.1 ≡ w')
  created-some s s' (true, w) w' e = (refl, cc)
  created-some s s' (false, w) w' e = absurd (none≢some (ap (λ (q : Option Session × W). q.0) e))

  -- From the moment that a session is created its cookie gives the claims of the user for seven
  -- days, the last instant included, and none after that, as long as the cache holds the entry; the
  -- only other answer is that the lookup failed.
  pub create-lookup :
      (uuid : String) (now later : Time) (input : CreateInput) (s : Session) (r : Request)
      (w w' w'' : W)
      → create store uuid now input w ≡ (some s, w')
      → stored uuid w'' ≡ stored uuid w'
      → session_id_from_request r ≡ uuid
      → uuid ≢ ""
      → ((lookup store later r w'').0 ≡ failed)
        ⊎ ((lookup store later r w'').0 ≡ (
            if ltb (now + ttl) later then absent else found (claims (new_session uuid now input))))
  unfolding create
  create-lookup uuid now later input s r w w' w'' made kept carried given =
      let new = new_session uuid now input in
      let (done, at) = created-some new s _ w' made in
      let written : stored uuid w' ≡ some new =
        rw (← at) (c.set_ok Shape.session_shape (key_session uuid) new ttl w done) in
      let id = session_id_from_request r in
      let here : id ≢ "" = λ e. given (sym carried ∙ e) in
      elim (get-held id later w'' new (rw carried (kept ∙ written))) [
        | inl b ↦ inl (lookup-eq later r w'' broken here b)
        | inr read ↦
            inr (lookup-eq later r w'' _ here read ∙ answer_of-if (ltb (now + ttl) later) new)
      ]

  lookup-blank :
      (now : Time) (r : Request) (w : W)
      → (session_id_from_request r == "") ≡ true
      → (lookup store now r w).0 ≡ absent
  unfolding lookup
  lookup-blank now r w blank = rw blank

  -- Once a session is deleted without an error, its cookie gives no claims: the session is absent,
  -- or the cache fails.
  pub delete-lookup :
      (now : Time) (r : Request) (w : W)
      → (delete store (session_id_from_request r) w).0 ≡ true
      → ((lookup store now r (delete store (session_id_from_request r) w).1).0 ≡ failed)
        ⊎ ((lookup store now r (delete store (session_id_from_request r) w).1).0 ≡ absent)
  unfolding delete
  delete-lookup now r w done =
      let id = session_id_from_request r in
      elim (Bool-cases (id == "")) [
        | inl blank ↦ rw blank (inr (lookup-blank now r w blank))
        | inr named ↦
            let given : id ≢ "" = ground (arith, eq_iff id "") in
            let gone = c.delete_ok Shape.session_shape (key_session id) w (rw named at done) in
            rw named (elim (get-gone id now (store.delete (key_session id) w).1 gone) [
              | inl b ↦ inl (lookup-eq now r _ broken given b)
              | inr m ↦ inr (lookup-eq now r _ miss given m)
            ])
      ]

  -- The sessions with other ids stay as they are when one is deleted, whether or not it succeeds.
  pub delete-stored :
      (id other : String) (w : W) → other ≢ id → stored other (delete store id w).1 ≡ stored other w
  unfolding delete
  delete-stored id other w ne = elim (Bool-cases (id == "")) [
    | inl blank ↦ rw blank
    | inr named ↦ rw named (
        c.delete_ne Shape.session_shape (key_session id) (key_session other) w
          (key_session-ne other id ne))
  ]
