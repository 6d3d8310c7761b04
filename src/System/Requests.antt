-- ===== src/System/Requests.antt =====
-- The handlers of the signed links and of the login keep what holds.
use mathlib.Core.List.Memᴰ
use politburo.Prelude.{String, Option, none, some, ◌∷◌, ◌==◌, ◌≡◌, refl, Bool-cases, inl, inr}
use politburo.Upstream.{Time}
use politburo.Auth.{Claims, LoginTicket}
use politburo.Auth.Url.{normalize_redirect}
use politburo.Auth.Tickets.{Bytes, Cipher, Consumed, consumed, invalid, unavailable}
use politburo.Users.{User}
use politburo.Http.{Request, Headers}
use politburo.Cache
use politburo.Cache.Contract.{Contract}
use politburo.BrowserSession.{Session}
use politburo.Api.SignedLink.{
  UserLookup, ticket_for, with_token, with_user, with_redirect, with_body, with_claims,
  generate_signed_link,
}
use politburo.Ui.{Web, with_session, with_ticket, render_expired, login}
use politburo.Ui.Laws.{manager}
use politburo.System.{World, lifted, lifted_store, issuing, consuming}
use politburo.System.Fades.{IsSteady, steady-Fades}
use politburo.System.Sound.{IsEarned, IsSound, Fades-IsSound}
use politburo.System.Issues.{issuing-IsSound}
use politburo.System.Consumes.{IsNoted, consuming-IsSound}
use politburo.System.Creates.{create-IsSound}

module _ {W : Type 0} (store : Cache.Store W) (c : Contract store) (users : UserLookup W)
    (g : Cipher) (secret : Bytes) where
  module _ (id drawn : Option Bytes) (escape : String → String) (base : String) (h : Headers)
      (steady : (k : String) → IsSteady store c (users k)) where
    abbrev find_user : UserLookup (World W)
    find_user k = lifted (users k)

    with_token-state :
        (asking : Option Claims) (path : String) (p : Option String × World W)
        → (with_token find_user (issuing store g secret asking id drawn) escape base h path p).1
          ≡ p.1
    with_token-state asking path (none, v) = refl
    with_token-state asking path (some token, v) = refl

    with_user-IsSound :
        (claims : Claims) (path : String) (seen : W) (p : Option (Option User) × World W)
        → (users claims.ds_user_id seen).0 ≡ p.0
        → IsSound store c users p.1
        → IsSound store c users
            (with_user find_user
              (issuing store g secret (some claims) id drawn)
              escape
              base
              h
              claims
              path
              p).1
    with_user-IsSound claims path seen (none, v) e i = i
    with_user-IsSound claims path seen (some none, v) e i = i
    with_user-IsSound claims path seen (some (some user), v) e i =
        let ticket = ticket_for user claims path in
        let good : IsEarned users (claims ∷ v.log.asked) ticket = record {
          claims = claims;
          asking = Memᴰ.head refl;
          user = user;
          redirect_to = path;
          seen = seen;
          known = e;
          same = refl;
        } in
        rw with_token-state (issuing-IsSound store c users g secret claims id drawn ticket v good i)

    with_redirect-IsSound :
        (claims : Claims) (path : Option String) (v : World W)
        → IsSound store c users v
        → IsSound store c users
            (with_redirect find_user
              (issuing store g secret (some claims) id drawn)
              escape
              base
              h
              claims
              path
              v).1
    with_redirect-IsSound claims none v i = i
    with_redirect-IsSound claims (some path) v i =
        with_user-IsSound claims path v.state (find_user claims.ds_user_id v) refl (
          Fades-IsSound store c users v (find_user claims.ds_user_id v).1
            (steady-Fades store c (users claims.ds_user_id) v (steady claims.ds_user_id)) i)

    with_body-IsSound :
        (claims : Claims) (body : Option String) (v : World W)
        → IsSound store c users v
        → IsSound store c users
            (with_body find_user
              (issuing store g secret (some claims) id drawn)
              escape
              base
              h
              claims
              body
              v).1
    with_body-IsSound claims none v i = i
    with_body-IsSound claims (some path) v i =
        with_redirect-IsSound claims (normalize_redirect path) v i

    with_claims-IsSound :
        (body : Option String) (o : Option Claims) (v : World W)
        → IsSound store c users v
        → IsSound store c users
            (with_claims find_user (issuing store g secret o id drawn) escape base h body o v).1
    with_claims-IsSound body none v i = i
    with_claims-IsSound body (some claims) v i = elim (Bool-cases (claims.ds_user_id == "")) [
      | inl blank ↦ rw blank i
      | inr given ↦ rw given (with_body-IsSound claims body v i)
    ]

    pub generate_signed_link-IsSound :
        (body : Option String) (r : Request) (v : World W)
        → IsSound store c users v
        → IsSound store c users
            (generate_signed_link find_user
              (issuing store g secret r.claims id drawn)
              escape
              base
              h
              body
              r
              v).1
    unfolding generate_signed_link
    generate_signed_link-IsSound body r v i = with_claims-IsSound body r.claims v i

  module _ (web : Web) (uuid : String) (now : Time) (h : Headers) (r : Request) where
    with_session-state :
        (ticket : LoginTicket) (p : Option Session × World W)
        → (with_session web h r ticket p).1 ≡ p.1
    with_session-state ticket (none, v) = refl
    with_session-state ticket (some s, v) = refl

    with_ticket-IsSound :
        (p : Consumed × World W)
        → IsSound store c users p.1 × IsNoted store c users g secret p.0 p.1
        → IsSound store c users
            (with_ticket web
              (consuming store g secret)
              (manager web (lifted_store store) h uuid now)
              h
              r
              p).1
    unfolding render_expired
    with_ticket-IsSound (consumed ticket, v) (i, (k, noted)) =
        rw with_session-state (create-IsSound store c users uuid now k ticket v noted i)
    with_ticket-IsSound (invalid, v) (i, noted) = i
    with_ticket-IsSound (unavailable, v) (i, noted) = i

    pub login-IsSound :
        (v : World W)
        → IsSound store c users v
        → IsSound store c users
            (login web
              (consuming store g secret)
              (manager web (lifted_store store) h uuid now)
              h
              r
              v).1
    unfolding login render_expired
    login-IsSound v i = elim (Bool-cases (r.query_token == "")) [
      | inl blank ↦ rw blank i
      | inr given ↦ rw given (
          with_ticket-IsSound (consuming store g secret r.query_token v)
            (consuming-IsSound store c users g secret r.query_token v i))
    ]
