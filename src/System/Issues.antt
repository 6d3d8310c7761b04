-- ===== src/System/Issues.antt =====
-- The call that writes a ticket keeps what holds.
use mathlib.Core.List.{Memᴰ}
use mathlib.Core.List.Memᴰ
use politburo.Prelude.{
  String, Bool, true, false, Option, none, some, List, ◌∷◌, ◌==◌, ◌≡◌, ◌≢◌, ◌⊎◌, inl, inr, refl,
  sym, ap, ap₂, subst, ◌∙◌, arith, eq_iff, eq_refl, eq_of_some, Bool-cases,
}
use politburo.Auth.{Claims, LoginTicket, ticket_ttl}
use politburo.Auth.Tickets.{Bytes, Cipher, encode_hex, encrypt_ticket_id, cached, issued, issue}
use politburo.Cache
use politburo.Cache.{Shape, Reply, hit, miss, broken}
use politburo.Cache.Contract.{Contract}
use politburo.Cache.Keys.{key_login_ticket, key_session}
use politburo.Cache.Keys.Laws.{key_login_ticket-key_session, Entry, key_of, key_of-injective}
use politburo.Api.SignedLink.{UserLookup}
use politburo.System.{World, note_issued, issuing}
use politburo.System.Sound.{count, IsEarned, ticket_at, session_at, IsSound}

entry_id : Entry → String
entry_id (Entry.login_ticket k) = k
entry_id e = ""

key_login_ticket-ne : (j k : String) → j ≢ k → key_login_ticket j ≢ key_login_ticket k
unfolding key_of entry_id
key_login_ticket-ne j k h e =
    h (ap entry_id (key_of-injective (Entry.login_ticket j) (Entry.login_ticket k) e))

module _ {W : Type 0} (store : Cache.Store W) (c : Contract store) (users : UserLookup W) where
  -- a write of a ticket that may have failed
  record Writes (k : String) (ticket : LoginTicket) (w w' : W) : Type 0 where
    tickets :
        (j : String)
        → (ticket_at store c users j w' ≡ ticket_at store c users j w)
          ⊎ ((j ≡ k) × (ticket_at store c users j w' ≡ some ticket))
    sessions : (j : String) → session_at store c users j w' ≡ session_at store c users j w

  unwritten : (k : String) (ticket : LoginTicket) (w : W) → Writes k ticket w w
  unwritten k ticket w = record { tickets = λ j. inl refl; sessions = λ j. refl }

  set_json-Writes :
      (k : String) (ticket : LoginTicket) (w : W)
      → Writes k ticket w
          (store.set_json Shape.ticket_shape (key_login_ticket k) ticket ticket_ttl w).1
  set_json-Writes k ticket w = record {
    tickets = written;
    sessions = λ j.
        c.set_ne Shape.ticket_shape Shape.session_shape (key_login_ticket k) (key_session j) ticket
          ticket_ttl w (λ e. key_login_ticket-key_session k j (sym e));
  }
    where
      written :
          (j : String)
          → let w' =
              (store.set_json Shape.ticket_shape (key_login_ticket k) ticket ticket_ttl w).1 in
            (ticket_at store c users j w' ≡ ticket_at store c users j w)
            ⊎ ((j ≡ k) × (ticket_at store c users j w' ≡ some ticket))
      written j = elim (Bool-cases (j == k)) [
        | inl here ↦
            let e : j ≡ k = (eq_iff j k).0 here in
            rw e (elim (c.set_either Shape.ticket_shape (key_login_ticket k) ticket ticket_ttl w) [
              | inl unset ↦ inl unset
              | inr set ↦ inr (refl, set)
            ])
        | inr other ↦ inl (
            c.set_ne Shape.ticket_shape Shape.ticket_shape (key_login_ticket k) (key_login_ticket j)
              ticket ticket_ttl w (key_login_ticket-ne j k (ground (arith, eq_iff j k))))
      ]

  more_asked :
      (claims : Claims) (asked : List Claims) (ticket : LoginTicket)
      → IsEarned users asked ticket
      → IsEarned users (claims ∷ asked) ticket
  more_asked claims asked ticket e = record {
    claims = e.claims;
    asking = Memᴰ.tail e.asking;
    user = e.user;
    redirect_to = e.redirect_to;
    seen = e.seen;
    known = e.known;
    same = e.same;
  }

  issued-IsSound :
      (claims : Claims) (k : String) (ticket : LoginTicket) (v : World W) (w : W)
      → IsEarned users (claims ∷ v.log.asked) ticket
      → Writes k ticket v.state w
      → IsSound store c users v
      → IsSound store c users (record {
        state = w;
        log = record v.log { issued = (k, ticket) ∷ v.log.issued; asked = claims ∷ v.log.asked };
      })
  unfolding count
  issued-IsSound claims k ticket v w good f i = record {
    earned = λ j t m. elim (Memᴰ.cases_cons m) [
      | inl same ↦
          subst (IsEarned users (claims ∷ v.log.asked))
            (sym (ap (λ (p : String × LoginTicket). p.1) same)) good
      | inr before ↦ more_asked claims v.log.asked t (i.earned j t before)
    ];
    origin = λ j t m. Memᴰ.tail (i.origin j t m);
    tickets = λ j t at. elim (f.tickets j) [
      | inl kept ↦ Memᴰ.tail (i.tickets j t (sym kept ∙ at))
      | inr (here, set) ↦
          let pair : String → LoginTicket → String × LoginTicket = λ a b. (a, b) in
          Memᴰ.head (ap₂ pair here (eq_of_some (sym at ∙ set)))
    ];
    sessions = λ j s at. i.sessions j s (sym (f.sessions j) ∙ at);
    once = λ j. elim (f.tickets j) [
      | inl kept ↦ rw kept (omega (arith, i.once j))
      | inr (here, set) ↦
          let same : (k == j) ≡ true = rw here (eq_refl k) in
          rw (set, same) (omega (arith, i.once j))
    ];
  }

  module _ (g : Cipher) (secret : Bytes) where
    -- a ticket is noted whether or not its write succeeds
    cached-IsSound :
        (claims : Claims) (id : Bytes) (ticket : LoginTicket) (token : Option String) (v : World W)
        → IsEarned users (claims ∷ v.log.asked) ticket
        → IsSound store c users v
        → IsSound store c users (record {
          state = (cached g store id ticket token v.state).1;
          log = note_issued (some claims) (some id) ticket v.log;
        })
    cached-IsSound claims id ticket none v good i =
        issued-IsSound claims (encode_hex id) ticket v v.state good
          (unwritten (encode_hex id) ticket v.state) i
    cached-IsSound claims id ticket (some token) v good i =
        let set =
          store.set_json Shape.ticket_shape (key_login_ticket (encode_hex id)) ticket ticket_ttl
            v.state in
        let sound =
          issued-IsSound claims (encode_hex id) ticket v set.1 good
            (set_json-Writes (encode_hex id) ticket v.state) i in
        subst
          (λ w.
            IsSound store c users
              (record { state = w; log = note_issued (some claims) (some id) ticket v.log }))
          (sym (issued-state token set)) sound
      where
        issued-state : (token : String) (p : Bool × W) → (issued g store token p).1 ≡ p.1
        issued-state token (true, w) = refl
        issued-state token (false, w) = refl

    pub issuing-IsSound :
        (claims : Claims) (id drawn : Option Bytes) (ticket : LoginTicket) (v : World W)
        → IsEarned users (claims ∷ v.log.asked) ticket
        → IsSound store c users v
        → IsSound store c users (issuing store g secret (some claims) id drawn ticket v).1
    unfolding issue
    issuing-IsSound claims none drawn ticket v good i = i
    issuing-IsSound claims (some id) drawn ticket v good i =
        cached-IsSound claims id ticket (encrypt_ticket_id g secret id drawn) v good i
