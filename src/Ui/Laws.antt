-- ===== src/Ui/Laws.antt =====
-- What the login and the logout of a browser come to, over the tickets and the sessions in a cache.
use politburo.Prelude.{
  ℕ, ◌+◌, String, Bool, true, false, Option, none, some, ◌==◌, if◌then◌else◌, ltb, ◌≡◌, ◌≢◌, ◌⊎◌,
  inl, inr, refl, ap, subst, ◌∙◌, arith, Bool-cases,
}
use politburo.Upstream.{Time}
use politburo.Auth.{LoginTicket}
use politburo.Auth.Tickets.{
  encode_hex, Bytes, Cipher, Consumed, consumed, invalid, unavailable, consume,
}
use politburo.Auth.Tickets.Laws.{held, consume-gone, consume_of_gone}
use politburo.Middleware.{found, absent, failed}
use politburo.Cache.{Shape, Store}
use politburo.Cache.Contract.{Contract, Forgets}
use politburo.Cache.Keys.{key_login_ticket, key_session}
use politburo.Cache.Keys.Laws.{key_login_ticket-key_session}
use politburo.BrowserSession.{ttl, Session, claims}
use politburo.BrowserSession.Cookie.{session_id_from_request}
use politburo.BrowserSession.Service.{CreateInput, new_session, created, create, delete, lookup}
use politburo.BrowserSession.Service.Laws.{stored, create-lookup, delete-lookup}
use politburo.Http.{Request, Response, Headers}
use politburo.Ui.{
  Web, SessionManager, input_of, render_expired, with_session, with_ticket, login, logout,
}

module _ {W : Type 0} (web : Web) (store : Store W) (h : Headers) where
  -- the service of internal/session at an instant, with the id that it draws
  abbrev pub manager : String → Time → SessionManager W
  manager uuid now = record { create = create store uuid now; delete = delete store }

  with_session-status :
      (r : Request) (ticket : LoginTicket) (o : Option Session × W)
      → (with_session web h r ticket o).0.status ≡ 303
      → (s : Session) × (o ≡ (some s, (with_session web h r ticket o).1))
  with_session-status r ticket (none, w) e = absurd (omega arith)
  with_session-status r ticket (some s, w) e = (s, refl)

  module _ (g : Cipher) (secret : Bytes) where
    abbrev pub sign_in : String → Time → Request → W → Response String × W
    sign_in uuid now r w = login web (consume g store secret) (manager uuid now) h r w

    -- the two steps of a login that redirects
    abbrev pub SignedIn : String → Time → Request → W → W → Type 0
    SignedIn uuid now r w w' =
        (ticket : LoginTicket) × (s : Session) × ((consume g store secret r.query_token w).0
          ≡ consumed ticket)
        × (create store uuid now (input_of ticket) (consume g store secret r.query_token w).1
            ≡ (some s, w'))

    with_ticket-status :
        (uuid : String) (now : Time) (r : Request) (p : Consumed × W)
        → (with_ticket web (consume g store secret) (manager uuid now) h r p).0.status ≡ 303
        → (ticket : LoginTicket) × (s : Session) × (p.0 ≡ consumed ticket)
          × (create store uuid now (input_of ticket) p.1
              ≡ (some s, (with_ticket web (consume g store secret) (manager uuid now) h r p).1))
    unfolding render_expired
    with_ticket-status uuid now r (consumed ticket, w) e =
        let (s, made) = with_session-status r ticket _ e in (ticket, s, refl, made)
    with_ticket-status uuid now r (invalid, w) e = absurd (omega arith)
    with_ticket-status uuid now r (unavailable, w) e = absurd (omega arith)

    sign_in-SignedIn :
        (uuid : String) (now : Time) (r : Request) (w : W)
        → (sign_in uuid now r w).0.status ≡ 303
        → SignedIn uuid now r w (sign_in uuid now r w).1
    unfolding login render_expired
    sign_in-SignedIn uuid now r w e = elim (Bool-cases (r.query_token == "")) [
      | inl blank ↦ absurd (expired (rw blank at e))
      | inr given ↦
          rw given
            (with_ticket-status uuid now r (consume g store secret r.query_token w) (rw given at e))
    ]
      where
        expired : ◌≡◌ {A = ℕ} 401 303 → ⊥
        expired e = absurd (omega arith)

    -- the state of the ticket after a login
    create-held :
        (c : Contract store) (uuid : String) (now : Time) (input : CreateInput) (id : Bytes) (w : W)
        → held g store c id (create store uuid now input w).1 ≡ held g store c id w
    unfolding create
    create-held c uuid now input id w =
        let s = new_session uuid now input in
        after (store.set_json Shape.session_shape (key_session uuid) s ttl w) (
          c.set_ne Shape.session_shape Shape.ticket_shape (key_session uuid)
            (key_login_ticket (encode_hex id)) s ttl w
            (key_login_ticket-key_session (encode_hex id) uuid))
      where
        after :
            (p : Bool × W)
            → held g store c id p.1 ≡ held g store c id w
            → held g store c id (created store (new_session uuid now input) p).1
              ≡ held g store c id w
        after (true, w') e = e
        after (false, w') e = e

    -- The cookie that a login sets gives the claims of the ticket's user for seven days, as long as
    -- the cache holds the session; the only other answer is that the lookup failed.
    pub login-lookup :
        (c : Contract store) (uuid : String) (now later : Time) (r r' : Request) (w w'' : W)
        → (sign_in uuid now r w).0.status ≡ 303
        → stored store c uuid w'' ≡ stored store c uuid (sign_in uuid now r w).1
        → session_id_from_request r' ≡ uuid
        → uuid ≢ ""
        → (ticket : LoginTicket) × ((consume g store secret r.query_token w).0 ≡ consumed ticket)
          × (((lookup store later r' w'').0 ≡ failed)
              ⊎ ((lookup store later r' w'').0 ≡ (
                  if ltb (now + ttl) later
                  then absent
                  else found (claims (new_session uuid now (input_of ticket))))))
    login-lookup c uuid now later r r' w w'' signed kept carried given =
        let (ticket, s, taken, made) = sign_in-SignedIn uuid now r w signed in
        (
          ticket,
          taken,
          create-lookup store c uuid now later (input_of ticket) s r' _ _ w'' made kept carried
              given,
        )

    with_ticket-refused :
        (uuid : String) (now : Time) (r : Request) (p : Consumed × W)
        → (p.0 ≡ invalid) ⊎ (p.0 ≡ unavailable)
        → (with_ticket web (consume g store secret) (manager uuid now) h r p).0.status ≡ 401
    unfolding render_expired
    with_ticket-refused uuid now r (invalid, w) e = refl
    with_ticket-refused uuid now r (unavailable, w) e = refl
    with_ticket-refused uuid now r (consumed t, w) (inl e) = cc
    with_ticket-refused uuid now r (consumed t, w) (inr e) = cc

    sign_in-refused :
        (uuid : String) (now : Time) (r : Request) (w : W)
        → ((consume g store secret r.query_token w).0 ≡ invalid)
          ⊎ ((consume g store secret r.query_token w).0 ≡ unavailable)
        → (sign_in uuid now r w).0.status ≡ 401
    unfolding login render_expired
    sign_in-refused uuid now r w e = elim (Bool-cases (r.query_token == "")) [
      | inl blank ↦ rw blank refl
      | inr given ↦
          rw given (with_ticket-refused uuid now r (consume g store secret r.query_token w) e)
    ]

    -- A signed link signs in once: after it did, and however many entries expire since, its token
    -- gives the page of an expired link, whoever comes with it.
    pub login_once :
        (c : Contract store) (uuid uuid' : String) (now later : Time) (r r' : Request) (w w'' : W)
        → (sign_in uuid now r w).0.status ≡ 303
        → Forgets c (sign_in uuid now r w).1 w''
        → r'.query_token ≡ r.query_token
        → (sign_in uuid' later r' w'').0.status ≡ 401
    login_once c uuid uuid' now later r r' w w'' signed later_on same =
        let (ticket, s, taken, made) = sign_in-SignedIn uuid now r w signed in
        let (id, opened, gone) = consume-gone g store c secret r.query_token ticket w taken in
        let at = ap (λ (p : Option Session × W). p.1) made in
        let now_gone : held g store c id (sign_in uuid now r w).1 ≡ none =
          subst (λ v. held g store c id v ≡ none) at
            (create-held c uuid now (input_of ticket) id _ ∙ gone) in
        let still_gone : held g store c id w'' ≡ none =
          elim (later_on Shape.ticket_shape (key_login_ticket (encode_hex id))) [
            | inl expired ↦ expired
            | inr kept ↦ kept ∙ now_gone
          ] in
        sign_in-refused uuid' later r' w''
          (rw same (consume_of_gone g store c secret r.query_token id w'' opened still_gone))

  -- After a logout that deletes its session, the cookie that came with it gives no claims: the
  -- session is absent, or the cache fails.
  pub logout-lookup :
      (c : Contract store) (g : Cipher) (secret : Bytes) (uuid : String) (now : Time) (r : Request)
      (w : W)
      → (delete store (session_id_from_request r) w).0 ≡ true
      → ((lookup store now r (logout web (consume g store secret) (manager uuid now) h r w).1).0
          ≡ failed)
        ⊎ ((lookup store now r (logout web (consume g store secret) (manager uuid now) h r w).1).0
            ≡ absent)
  unfolding logout
  logout-lookup c g secret uuid now r w done = delete-lookup store c now r w done
