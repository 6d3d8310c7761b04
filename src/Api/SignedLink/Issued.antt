-- ===== src/Api/SignedLink/Issued.antt =====
-- What stands behind a signed link.
use politburo.Prelude.{
  String, Option, none, some, ◌==◌, length, ◌≡◌, ◌≢◌, ◌⊎◌, refl, sym, ap, ◌∙◌, subst, arith, eq_iff,
  Bool-cases, inl, inr,
}
use politburo.Auth.{Claims}
use politburo.Auth.Url.{normalize_redirect, format_login_url}
use politburo.Auth.Url.Laws.{IsRooted, normalize_redirect-IsRooted}
use politburo.Auth.Tickets.{
  Bytes, Cipher, IsCipher, encode_hex, issue, consumed, unavailable, consume,
}
use politburo.Auth.Tickets.Laws.{issue-consume}
use politburo.Users.{User}
use politburo.Cache.{Shape, Store}
use politburo.Cache.Keys.{key_login_ticket}
use politburo.Cache.Contract.{Contract}
use politburo.Http
use politburo.Http.{Request, Response, Headers}
use politburo.Api.SignedLink.{
  UserLookup, TicketIssuer, Link, ticket_for, with_token, with_user, with_redirect, with_body,
  with_claims, generate_signed_link,
}

module _ {W : Type 0} (users : UserLookup W) (tickets : TicketIssuer W) (escape : String → String)
    (ui_base_url : String) (h : Headers) (r : Request) (w : W) where
  -- A link with a token that was issued for the user whose Discord id the request carries.
  pub record IsIssued (d : Link) (w' : W) : Type 0 where
    pub claims : Claims
    pub user : User
    pub token : String
    pub carried : r.claims ≡ some claims
    pub named : claims.ds_user_id ≢ ""
    pub known : (users claims.ds_user_id w).0 ≡ some (some user)
    pub ticket_issued :
        tickets (ticket_for user claims d.redirect_to) (users claims.ds_user_id w).1
        ≡ (some token, w')
    pub url_shown : d.url ≡ format_login_url escape ui_base_url token
    pub is_rooted : IsRooted d.redirect_to

  -- the link of a payload, unless the response is an error
  abbrev IsAnswer : Http.Body Link → W → Type 0
  IsAnswer (Http.Body.payload d) w' = IsIssued d w'
  IsAnswer b w' = Unit

  abbrev IsSound : Response Link × W → Type 0
  IsSound p = IsAnswer p.0.body p.1

  with_token-IsSound :
      (claims : Claims) (user : User) (redirect_to : String) (o : Option String × W)
      → r.claims ≡ some claims
      → claims.ds_user_id ≢ ""
      → (users claims.ds_user_id w).0 ≡ some (some user)
      → IsRooted redirect_to
      → tickets (ticket_for user claims redirect_to) (users claims.ds_user_id w).1 ≡ o
      → IsSound (with_token users tickets escape ui_base_url h redirect_to o)
  with_token-IsSound claims user redirect_to (none, w') carried named known is_rooted e = tt
  with_token-IsSound claims user redirect_to (some token, w') carried named known is_rooted e =
      record {
        claims = claims;
        user = user;
        token = token;
        carried = carried;
        named = named;
        known = known;
        ticket_issued = e;
        url_shown = refl;
        is_rooted = is_rooted;
      }

  with_user-IsSound :
      (claims : Claims) (redirect_to : String) (o : Option (Option User) × W)
      → r.claims ≡ some claims
      → claims.ds_user_id ≢ ""
      → IsRooted redirect_to
      → users claims.ds_user_id w ≡ o
      → IsSound (with_user users tickets escape ui_base_url h claims redirect_to o)
  with_user-IsSound claims redirect_to (none, w') carried named is_rooted e = tt
  with_user-IsSound claims redirect_to (some none, w') carried named is_rooted e = tt
  with_user-IsSound claims redirect_to (some (some user), w') carried named is_rooted e =
      with_token-IsSound claims user redirect_to (tickets (ticket_for user claims redirect_to) w')
        carried named (rw e) is_rooted (rw e)

  with_redirect-IsSound :
      (claims : Claims) (path : String) (o : Option String)
      → r.claims ≡ some claims
      → claims.ds_user_id ≢ ""
      → normalize_redirect path ≡ o
      → IsSound (with_redirect users tickets escape ui_base_url h claims o w)
  with_redirect-IsSound claims path none carried named e = tt
  with_redirect-IsSound claims path (some redirect_to) carried named e =
      with_user-IsSound claims redirect_to (users claims.ds_user_id w) carried named
        (normalize_redirect-IsRooted path redirect_to e) refl

  with_body-IsSound :
      (claims : Claims) (body : Option String)
      → r.claims ≡ some claims
      → claims.ds_user_id ≢ ""
      → IsSound (with_body users tickets escape ui_base_url h claims body w)
  with_body-IsSound claims none carried named = tt
  with_body-IsSound claims (some path) carried named =
      with_redirect-IsSound claims path (normalize_redirect path) carried named refl

  with_claims-IsSound :
      (body : Option String) (o : Option Claims)
      → r.claims ≡ o
      → IsSound (with_claims users tickets escape ui_base_url h body o w)
  with_claims-IsSound body none carried = tt
  with_claims-IsSound body (some claims) carried = elim (Bool-cases (claims.ds_user_id == "")) [
    | inl blank ↦ rw blank tt
    | inr given ↦
        let named : claims.ds_user_id ≢ "" = ground (arith, eq_iff claims.ds_user_id "") in
        rw given (with_body-IsSound claims body carried named)
  ]

  pub generate_signed_link-IsIssued :
      (body : Option String) (d : Link)
      → (generate_signed_link users tickets escape ui_base_url h body r w).0.body
        ≡ Http.Body.payload d
      → IsIssued d (generate_signed_link users tickets escape ui_base_url h body r w).1
  unfolding generate_signed_link
  generate_signed_link-IsIssued body d e =
      subst (λ b. IsAnswer b (with_claims users tickets escape ui_base_url h body r.claims w).1) e
        (with_claims-IsSound body r.claims refl)

-- The token of a link, as long as the cache holds its ticket as the handler left it, gives the ticket of the user
-- whom the lookup found, with the redirect of the response; the only other answer is an error of the
-- cache.
pub generate_signed_link-consume :
    {W : Type 0} (g : Cipher) (law : IsCipher g) (store : Store W) (c : Contract store)
    (secret id nonce : Bytes) (size : length nonce ≡ g.nonce_size) (users : UserLookup W)
    (escape : String → String) (base : String) (h : Headers) (r : Request) (w w' w₁ : W)
    (body : Option String) (answer : Response Link) (d : Link)
    → generate_signed_link users
        (issue g store secret (some id) (some nonce))
        escape
        base
        h
        body
        r
        w
      ≡ (answer, w')
    → answer.body ≡ Http.Body.payload d
    → c.holds Shape.ticket_shape (key_login_ticket (encode_hex id)) w₁
      ≡ c.holds Shape.ticket_shape (key_login_ticket (encode_hex id)) w'
    → (claims : Claims) × (user : User) × (token : String) × (r.claims ≡ some claims)
      × ((users claims.ds_user_id w).0 ≡ some (some user))
      × (d.url ≡ format_login_url escape base token)
      × (((consume g store secret token w₁).0 ≡ consumed (ticket_for user claims d.redirect_to))
          ⊎ ((consume g store secret token w₁).0 ≡ unavailable))
generate_signed_link-consume {W = W} g law store c secret id nonce size users escape base h r w w'
      w₁ body answer d e b unspent =
    let tickets = issue g store secret (some id) (some nonce) in
    let run = generate_signed_link users tickets escape base h body r w in
    let from =
      generate_signed_link-IsIssued users tickets escape base h r w body d
        (ap (λ (p : Response Link × W). p.0.body) e ∙ b) in
    let at : run.1 ≡ w' = ap (λ (p : Response Link × W). p.1) e in
    (
      from.claims,
      from.user,
      from.token,
      from.carried,
      from.known,
      from.url_shown,
      issue-consume g store c law secret id nonce (ticket_for from.user from.claims d.redirect_to)
          from.token (users from.claims.ds_user_id w).1 run.1 w₁ size from.ticket_issued
          (unspent
            ∙ ap (λ w. c.holds Shape.ticket_shape (key_login_ticket (encode_hex id)) w) (sym at)),
    )
