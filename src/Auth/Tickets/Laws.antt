-- ===== src/Auth/Tickets/Laws.antt =====
-- The life of a login ticket.
use politburo.Prelude.{
  String, Bool, true, false, Option, none, some, ◌++◌, ltb, length, length-append, take-append,
  drop-append, ◌≡◌, ◌⊎◌, inl, inr, refl, sym, ap, ◌∙◌, arith, Bool-cases, eq_of_some, none≢some,
}
use politburo.Auth.{LoginTicket, ticket_ttl}
use politburo.Auth.Tickets.{
  Bytes, Cipher, IsCipher, encode_hex, encrypt_ticket_id, unsealed, decrypt_ticket_id, issued,
  cached, issue, consumed, invalid, unavailable, of_reply, take_ticket, consume,
}
use politburo.Cache.{Shape, Reply, hit, miss, broken, Store}
use politburo.Cache.Contract.{Contract, get_del_cases}
use politburo.Cache.Keys.{key_login_ticket}

module _ (g : Cipher) (law : IsCipher g) where
  pub unsealed-seal :
      (secret id nonce : Bytes)
      → g.accepts secret ≡ true
      → length nonce ≡ g.nonce_size
      → unsealed g secret (some (nonce ++ g.seal secret nonce id)) ≡ some id
  unsealed-seal secret id nonce accepted size =
      let body = g.seal secret nonce id in
      let long : ltb (length (nonce ++ body)) g.nonce_size ≡ false =
        ground (arith, length-append nonce body) in
      rw (accepted, long, ← size, take-append nonce body, drop-append nonce body)
        (law.unseal-seal secret nonce id size)

  -- Decryption inverts encryption.
  decrypt-encrypt :
      (secret id nonce : Bytes) (token : String)
      → length nonce ≡ g.nonce_size
      → encrypt_ticket_id g secret id (some nonce) ≡ some token
      → decrypt_ticket_id g secret token ≡ some id
  unfolding encrypt_ticket_id decrypt_ticket_id
  decrypt-encrypt secret id nonce token size e = elim (Bool-cases (g.accepts secret)) [
    | inl accepted ↦
        let made : g.encode (nonce ++ g.seal secret nonce id) ≡ token = ground arith in
        rw (← made, law.decode-encode) (unsealed-seal secret id nonce accepted size)
    | inr refused ↦ absurd (none≢some (rw refused at e))
  ]

module _ (g : Cipher) {W : Type 0} (store : Store W) (c : Contract store) where
  -- what the cache holds for a ticket id
  abbrev pub held : Bytes → W → Option LoginTicket
  held id w = c.holds Shape.ticket_shape (key_login_ticket (encode_hex id)) w

  of_reply-hit :
      (ticket : LoginTicket) (reply : Reply LoginTicket × W)
      → reply.0 ≡ hit ticket
      → (of_reply g store reply).0 ≡ consumed ticket
  of_reply-hit ticket (hit t, w) e = cc
  of_reply-hit ticket (miss, w) e = cc
  of_reply-hit ticket (broken, w) e = cc

  of_reply-miss :
      (reply : Reply LoginTicket × W) → reply.0 ≡ miss → (of_reply g store reply).0 ≡ invalid
  of_reply-miss (hit t, w) e = cc
  of_reply-miss (miss, w) e = refl
  of_reply-miss (broken, w) e = cc

  of_reply-broken :
      (reply : Reply LoginTicket × W) → reply.0 ≡ broken → (of_reply g store reply).0 ≡ unavailable
  of_reply-broken (hit t, w) e = cc
  of_reply-broken (miss, w) e = cc
  of_reply-broken (broken, w) e = refl

  take_ticket-held :
      (id : Bytes) (w : W) (ticket : LoginTicket)
      → held id w ≡ some ticket
      → ((take_ticket g store (some id) w).0 ≡ consumed ticket)
        ⊎ ((take_ticket g store (some id) w).0 ≡ unavailable)
  take_ticket-held id w ticket e =
      elim (get_del_cases c Shape.ticket_shape (key_login_ticket (encode_hex id)) w) [
        | inl b ↦ inr (of_reply-broken _ b)
        | inr (inl (v, read, holds)) ↦
            inl (of_reply-hit ticket _ (read ∙ ap hit (eq_of_some (sym holds ∙ e))))
        | inr (inr (_, gone)) ↦ absurd (none≢some (sym gone ∙ e))
      ]

  take_ticket-gone :
      (id : Bytes) (w : W)
      → held id w ≡ none
      → ((take_ticket g store (some id) w).0 ≡ invalid)
        ⊎ ((take_ticket g store (some id) w).0 ≡ unavailable)
  take_ticket-gone id w e =
      elim (get_del_cases c Shape.ticket_shape (key_login_ticket (encode_hex id)) w) [
        | inl b ↦ inr (of_reply-broken _ b)
        | inr (inl (v, _, holds)) ↦ absurd (none≢some (sym e ∙ holds))
        | inr (inr (read, _)) ↦ inl (of_reply-miss _ read)
      ]

  issued-some :
      (token token' : String) (p : Bool × W) (w' : W)
      → issued g store token p ≡ (some token', w')
      → (p.0 ≡ true) × (p.1 ≡ w') × (token ≡ token')
  issued-some token token' (true, w) w' e = (refl, cc, cc)
  issued-some token token' (false, w) w' e =
      absurd (none≢some (ap (λ (q : Option String × W). q.0) e))

  -- A token that was issued gives its ticket as long as the cache holds the entry; the only other
  -- answer is an error of the cache.
  pub issue-consume :
      (law : IsCipher g) (secret id nonce : Bytes) (ticket : LoginTicket) (token : String)
      (w w' w'' : W)
      → length nonce ≡ g.nonce_size
      → issue g store secret (some id) (some nonce) ticket w ≡ (some token, w')
      → held id w'' ≡ held id w'
      → ((consume g store secret token w'').0 ≡ consumed ticket)
        ⊎ ((consume g store secret token w'').0 ≡ unavailable)
  unfolding issue consume
  issue-consume law secret id nonce ticket token w w' w'' size made kept =
      split (encrypt_ticket_id g secret id (some nonce)) refl made
    where
      split :
          (t : Option String)
          → encrypt_ticket_id g secret id (some nonce) ≡ t
          → cached g store id ticket t w ≡ (some token, w')
          → ((consume g store secret token w'').0 ≡ consumed ticket)
            ⊎ ((consume g store secret token w'').0 ≡ unavailable)
      split none e m = absurd (none≢some (ap (λ (q : Option String × W). q.0) m))
      split (some t) e m =
          let (done, at, same) = issued-some t token _ w' m in
          let written : held id w' ≡ some ticket =
            rw (← at) (c.set_ok Shape.ticket_shape _ ticket ticket_ttl w done) in
          rw (decrypt-encrypt g law secret id nonce token size (e ∙ ap some same))
            (take_ticket-held id w'' ticket (kept ∙ written))

  of_reply-consumed :
      (ticket : LoginTicket) (reply : Reply LoginTicket × W)
      → (of_reply g store reply).0 ≡ consumed ticket
      → (reply.0 ≡ hit ticket) × ((of_reply g store reply).1 ≡ reply.1)
  of_reply-consumed ticket (hit t, w) e = (cc, refl)
  of_reply-consumed ticket (miss, w) e = cc
  of_reply-consumed ticket (broken, w) e = cc

  gone-later :
      (id : Bytes) (w w'' : W) (ticket : LoginTicket)
      → (take_ticket g store (some id) w).0 ≡ consumed ticket
      → (held id w'' ≡ none) ⊎ (held id w'' ≡ held id (take_ticket g store (some id) w).1)
      → held id w'' ≡ none
  gone-later id w w'' ticket e f =
      let k = key_login_ticket (encode_hex id) in
      let (read, after) = of_reply-consumed ticket _ e in
      let gone : held id (take_ticket g store (some id) w).1 ≡ none =
        rw after (c.get_del_gone Shape.ticket_shape Shape.ticket_shape k w ticket read) in
      elim f [ inl expired ↦ expired | inr kept ↦ kept ∙ gone ]

  -- the entry of a token's ticket is gone, or as it was
  abbrev pub Unwritten : Bytes → String → W → W → Type 0
  Unwritten secret token w w'' =
      (id : Bytes)
      → decrypt_ticket_id g secret token ≡ some id
      → (held id w'' ≡ none) ⊎ (held id w'' ≡ held id w)

  -- A token is consumed at most once: after it gave a ticket, and whatever else is written, deleted or
  -- expires since, it is invalid, or the cache fails, unless a ticket is written under its id again.
  pub consume_once :
      (secret : Bytes) (token : String) (ticket : LoginTicket) (w w'' : W)
      → (consume g store secret token w).0 ≡ consumed ticket
      → Unwritten secret token (consume g store secret token w).1 w''
      → ((consume g store secret token w'').0 ≡ invalid)
        ⊎ ((consume g store secret token w'').0 ≡ unavailable)
  unfolding consume
  consume_once secret token ticket w w'' first later =
      split (decrypt_ticket_id g secret token) refl first later
    where
      split :
          (o : Option Bytes)
          → decrypt_ticket_id g secret token ≡ o
          → (take_ticket g store o w).0 ≡ consumed ticket
          → Unwritten secret token (take_ticket g store o w).1 w''
          → ((take_ticket g store o w'').0 ≡ invalid)
            ⊎ ((take_ticket g store o w'').0 ≡ unavailable)
      split none at e f = cc
      split (some id) at e f = take_ticket-gone id w'' (gone-later id w w'' ticket e (f id at))

  -- a ticket that was consumed is no longer in the cache
  pub consume-gone :
      (secret : Bytes) (token : String) (ticket : LoginTicket) (w : W)
      → (consume g store secret token w).0 ≡ consumed ticket
      → (id : Bytes) × (decrypt_ticket_id g secret token ≡ some id)
        × (held id (consume g store secret token w).1 ≡ none)
  unfolding consume
  consume-gone secret token ticket w first = split (decrypt_ticket_id g secret token) refl first
    where
      split :
          (o : Option Bytes)
          → decrypt_ticket_id g secret token ≡ o
          → (take_ticket g store o w).0 ≡ consumed ticket
          → (id : Bytes) × (o ≡ some id) × (held id (take_ticket g store o w).1 ≡ none)
      split none e f = cc
      split (some id) e f =
          (id, refl, gone-later id w (take_ticket g store (some id) w).1 ticket f (inr refl))

  pub consume_of_gone :
      (secret : Bytes) (token : String) (id : Bytes) (w : W)
      → decrypt_ticket_id g secret token ≡ some id
      → held id w ≡ none
      → ((consume g store secret token w).0 ≡ invalid)
        ⊎ ((consume g store secret token w).0 ≡ unavailable)
  unfolding consume
  consume_of_gone secret token id w e gone = rw e (take_ticket-gone id w gone)
