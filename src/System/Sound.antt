-- ===== src/System/Sound.antt =====
-- What holds of the tickets and the sessions in the cache at all times, and the three calls that
-- write or take them.
use mathlib.Core.List.{Memᴰ}
use politburo.Prelude.{
  ℕ, ◌+◌, ◌≤◌, String, Option, none, some, List, [], ◌∷◌, ◌==◌, if◌then◌else◌, ◌≡◌, ◌⊎◌, inl, inr,
  refl, sym, subst, ◌∙◌, arith, none≢some,
}
use politburo.Upstream.{Time}
use politburo.Auth.{Claims, LoginTicket}
use politburo.Users.{User}
use politburo.BrowserSession.{Session}
use politburo.BrowserSession.Service.{new_session}
use politburo.Cache
use politburo.Cache.{Shape}
use politburo.Cache.Contract.{Contract}
use politburo.Cache.Keys.{key_login_ticket, key_session}
use politburo.Api.SignedLink.{UserLookup, ticket_for}
use politburo.Ui.{input_of}
use politburo.System.{World, Log}
use politburo.System.Fades.{Fading, Fades}

-- how often an id stands in a log
unfoldable pub count : String → List (String × LoginTicket) → ℕ
count k [] = 0
count k ((j, ticket) ∷ l) = (if j == k then 1 else 0) + count k l

abbrev pub present : Option LoginTicket → ℕ
present none = 0
present (some ticket) = 1

-- A ticket for the user whom the lookup found for the Discord id in the claims of a request.
pub record IsEarned {W : Type 0} (users : UserLookup W) (asked : List Claims) (ticket : LoginTicket)
    : Type 0 where
  pub claims : Claims
  pub asking : Memᴰ claims asked
  pub user : User
  pub redirect_to : String
  pub seen : W
  pub known : (users claims.ds_user_id seen).0 ≡ some (some user)
  pub same : ticket ≡ ticket_for user claims redirect_to

module _ {W : Type 0} (store : Cache.Store W) (c : Contract store) (users : UserLookup W) where
  abbrev pub ticket_at : String → W → Option LoginTicket
  ticket_at k w = c.holds Shape.ticket_shape (key_login_ticket k) w

  abbrev pub session_at : String → W → Option Session
  session_at k w = c.holds Shape.session_shape (key_session k) w

  -- a session that was made for a ticket of the log
  pub record IsSigned (taken : List (String × LoginTicket)) (s : Session) : Type 0 where
    pub id : String
    pub ticket : LoginTicket
    pub at : Time
    pub consumed : Memᴰ (id, ticket) taken
    pub made : s ≡ new_session s.session_id at (input_of ticket)

  pub record IsSound (v : World W) : Type 0 where
    pub earned :
        (k : String) (t : LoginTicket) → Memᴰ (k, t) v.log.issued → IsEarned users v.log.asked t
    pub origin : (k : String) (t : LoginTicket) → Memᴰ (k, t) v.log.taken → Memᴰ (k, t) v.log.issued
    pub tickets :
        (k : String) (t : LoginTicket) → ticket_at k v.state ≡ some t → Memᴰ (k, t) v.log.issued
    pub sessions :
        (k : String) (s : Session) → session_at k v.state ≡ some s → IsSigned v.log.taken s
    pub once :
        (k : String) → count k v.log.taken + present (ticket_at k v.state) ≤ count k v.log.issued

  fading_some :
      {A : Type 0} (o o' : Option A) (a : A) → (o' ≡ none) ⊎ (o' ≡ o) → o' ≡ some a → o ≡ some a
  fading_some o o' a (inl gone) e = absurd (none≢some (sym gone ∙ e))
  fading_some o o' a (inr kept) e = sym kept ∙ e

  fading_le : (o o' : Option LoginTicket) → (o' ≡ none) ⊎ (o' ≡ o) → present o' ≤ present o
  fading_le o o' (inl gone) = rw gone (omega arith)
  fading_le o o' (inr kept) = rw kept (omega arith)

  ticket-Fading :
      (v v' : World W) (k : String)
      → Fades store c v v'
      → Fading store c Shape.ticket_shape (key_login_ticket k) v.state v'.state
  ticket-Fading v v' k f = f.fading Shape.ticket_shape (key_login_ticket k) (inl (k, refl))

  pub Fades-IsSound : (v v' : World W) → Fades store c v v' → IsSound v → IsSound v'
  Fades-IsSound v v' f i =
      let e = f.same_log in
      record {
        earned = λ k t m.
            subst (λ (l : Log). IsEarned users l.asked t) (sym e)
              (i.earned k t (subst (λ (l : Log). Memᴰ (k, t) l.issued) e m));
        origin = λ k t m.
            subst (λ (l : Log). Memᴰ (k, t) l.issued) (sym e)
              (i.origin k t (subst (λ (l : Log). Memᴰ (k, t) l.taken) e m));
        tickets = λ k t at.
            subst (λ (l : Log). Memᴰ (k, t) l.issued) (sym e)
              (i.tickets k t (fading_some (ticket_at k v.state) _ t (ticket-Fading v v' k f) at));
        sessions = λ k s at.
            subst (λ (l : Log). IsSigned l.taken s) (sym e)
              (i.sessions k s (
                fading_some (session_at k v.state) _ s
                  (f.fading Shape.session_shape (key_session k) (inr (k, refl))) at));
        once = λ k.
            let less = fading_le (ticket_at k v.state) _ (ticket-Fading v v' k f) in
            subst (λ (l : Log). count k l.taken + present (ticket_at k v'.state) ≤ count k l.issued)
              (sym e) (omega (arith, less, i.once k));
      }
