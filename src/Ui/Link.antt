-- ===== src/Ui/Link.antt =====
-- From a signed link to the session of its user.
use text.Mathlib.TextLemmas.{append_cancel_left}
use politburo.Prelude.{
  ◌+◌, String, false, Option, some, ltb, if◌then◌else◌, length, ◌≡◌, ◌≢◌, ◌⊎◌, inl, inr, sym, subst,
  ◌∙◌,
}
use politburo.Upstream.{Time}
use politburo.Auth.{Claims, LoginTicket}
use politburo.Auth.Url.{format_login_url}
use politburo.Auth.Tickets.{
  Bytes, Cipher, IsCipher, encode_hex, Consumed, consumed, unavailable, issue, consume,
}
use politburo.Middleware.{found, absent, failed}
use politburo.Cache.{Shape, Store}
use politburo.Cache.Keys.{key_login_ticket}
use politburo.Cache.Contract.{Contract}
use politburo.BrowserSession.{ttl}
use politburo.BrowserSession
use politburo.BrowserSession.Cookie.{session_id_from_request}
use politburo.BrowserSession.Service.{new_session, lookup}
use politburo.BrowserSession.Service.Laws.{stored}
use politburo.Http
use politburo.Http.{Request, Response, Headers}
use politburo.Users.{User}
use politburo.Api.SignedLink.{UserLookup, Link, ticket_for, generate_signed_link}
use politburo.Api.SignedLink.Issued.{generate_signed_link-consume}
use politburo.Ui.{Web, input_of}
use politburo.Ui.Laws.{sign_in, login-lookup}

format_login_url-injective :
    (escape : String → String) (base s t : String)
    → ((a b : String) → escape a ≡ escape b → a ≡ b)
    → format_login_url escape base s ≡ format_login_url escape base t
    → s ≡ t
unfolding format_login_url
format_login_url-injective escape base s t injective e =
    injective s t (append_cancel_left _ _ _ (append_cancel_left _ _ _ e))

-- the claims of a session that a link for a user gives
abbrev pub member_claims : User → Claims → Claims
member_claims user claims = record {
  pb_user_id = user.id;
  role = "";
  ds_user_id = user.discord_id;
  ds_server_id = claims.ds_server_id;
  pb_server_id = "";
  api_key_present = false;
}

only_ticket :
    (o : Consumed) (t t' : LoginTicket)
    → (o ≡ consumed t) ⊎ (o ≡ unavailable)
    → o ≡ consumed t'
    → t ≡ t'
only_ticket o t t' (inl e) e' = cc
only_ticket o t t' (inr e) e' = cc

-- Whoever opens the URL of a link that was generated, while the cache holds its ticket as the link
-- left it, and is signed in by it, has from then on, for
-- seven days and as long as the cache holds the session, the claims of the user whom the lookup
-- found for the Discord id in the claims of the request for the link, with the Discord server of
-- those claims; the only other answer is that the lookup failed.
pub generate_signed_link-login :
    {W : Type 0} (g : Cipher) (law : IsCipher g) (store : Store W) (c : Contract store)
    (secret id nonce : Bytes) (size : length nonce ≡ g.nonce_size) (users : UserLookup W)
    (escape : String → String) (injective : (a b : String) → escape a ≡ escape b → a ≡ b)
    (base : String) (h : Headers) (r : Request) (w w' w₁ : W) (body : Option String)
    (answer : Response Link) (d : Link) (web : Web) (h' : Headers) (uuid : String)
    (now later : Time) (opening returning : Request) (w'' : W)
    → generate_signed_link users
        (issue g store secret (some id) (some nonce))
        escape
        base
        h
        body
        r
        w
      ≡ (answer, w')
    → answer.body ≡ Http.Body.payload d
    → c.holds Shape.ticket_shape (key_login_ticket (encode_hex id)) w₁
      ≡ c.holds Shape.ticket_shape (key_login_ticket (encode_hex id)) w'
    → d.url ≡ format_login_url escape base opening.query_token
    → (sign_in web store h' g secret uuid now opening w₁).0.status ≡ 303
    → stored store c uuid w''
      ≡ stored store c uuid (sign_in web store h' g secret uuid now opening w₁).1
    → session_id_from_request returning ≡ uuid
    → uuid ≢ ""
    → (claims : Claims) × (user : User) × (r.claims ≡ some claims)
      × ((users claims.ds_user_id w).0 ≡ some (some user))
      × (((lookup store later returning w'').0 ≡ failed)
          ⊎ ((lookup store later returning w'').0
              ≡ (if ltb (now + ttl) later then absent else found (member_claims user claims))))
generate_signed_link-login g law store c secret id nonce size users escape injective base h r w w'
      w₁ body answer d web h' uuid now later opening returning w'' made shown unspent opened signed
      kept carried given =
    let (claims, user, token, carries, known, url, ticket_held) =
      generate_signed_link-consume g law store c secret id nonce size users escape base h r w w' w₁
        body answer d made shown unspent in
    let same : opening.query_token ≡ token =
      format_login_url-injective escape base _ _ injective (sym opened ∙ url) in
    let (ticket, taken, looked) =
      login-lookup web store h' g secret c uuid now later opening returning w₁ w'' signed kept
        carried given in
    let of_user : ticket_for user claims d.redirect_to ≡ ticket =
      only_ticket _ _ _ ticket_held
        (subst (λ t. (consume g store secret t w₁).0 ≡ consumed ticket) same taken) in
    (
      claims,
      user,
      carries,
      known,
      subst
          (λ t.
            ((lookup store later returning w'').0 ≡ failed)
            ⊎ ((lookup store later returning w'').0 ≡ (
                if ltb (now + ttl) later
                then absent
                else found (BrowserSession.claims (new_session uuid now (input_of t))))))
          (sym of_user) looked,
    )
