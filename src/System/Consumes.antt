-- ===== src/System/Consumes.antt =====
-- The call that takes a ticket keeps what holds.
use mathlib.Core.List.{Memᴰ}
use mathlib.Core.List.Memᴰ
use politburo.Prelude.{
  ◌+◌, ◌≤◌, String, Option, none, some, ◌==◌, ◌≡◌, inl, inr, refl, sym, subst, arith, eq_iff,
  Bool-cases,
}
use politburo.Auth.{LoginTicket}
use politburo.Auth.Tickets.{
  Bytes, Cipher, encode_hex, decrypt_ticket_id, of_reply, take_ticket, consume, Consumed, consumed,
  invalid, unavailable,
}
use politburo.Cache
use politburo.Cache.{Shape, Reply, hit, miss, broken}
use politburo.Cache.Contract.{Contract}
use politburo.Cache.Keys.{key_login_ticket}
use politburo.Api.SignedLink.{UserLookup}
use politburo.System.{World, note_taken, consuming}
use politburo.System.Fades.{Fading, Fades, get_del_json-Fading}
use politburo.System.Sound.{count, present, ticket_at, IsSound, Fades-IsSound}

module _ {W : Type 0} (store : Cache.Store W) (c : Contract store) (users : UserLookup W) where
  module _ (g : Cipher) (secret : Bytes) where
    -- the ticket of a token that was consumed stands in the log
    abbrev pub IsNoted : Consumed → World W → Type 0
    IsNoted (consumed ticket) v = (k : String) × Memᴰ (k, ticket) v.log.taken
    IsNoted invalid v = Unit
    IsNoted unavailable v = Unit

    abbrev after_reply : Bytes → World W → Consumed × W → World W
    after_reply id v p = record { state = p.1; log = note_taken (some id) p.0 v.log }

    taken-IsSound :
        (id : Bytes) (v : World W) (ticket : LoginTicket) (w : W)
        → ticket_at store c users (encode_hex id) v.state ≡ some ticket
        → ticket_at store c users (encode_hex id) w ≡ none
        → ((t : Shape) (k : String) → Fading store c t k v.state w)
        → IsSound store c users v
        → IsSound store c users (after_reply id v (consumed ticket, w))
    unfolding count
    taken-IsSound id v ticket w held gone fading i =
        let faded : World W = record v { state = w } in
        let fades : Fades store c v faded = record {
          same_log = refl;
          fading = λ t k guarded. fading t k;
        } in
        let later = Fades-IsSound store c users v faded fades i in
        record {
          earned = later.earned;
          origin = λ k t m. elim (Memᴰ.cases_cons m) [
            | inl same ↦
                subst (λ p. Memᴰ p v.log.issued) (sym same) (i.tickets (encode_hex id) ticket held)
            | inr before ↦ i.origin k t before
          ];
          tickets = later.tickets;
          sessions = λ k s at.
              let signed = later.sessions k s at in
              record {
                id = signed.id;
                ticket = signed.ticket;
                at = signed.at;
                consumed = Memᴰ.tail signed.consumed;
                made = signed.made;
              };
          once = λ k. elim (Bool-cases (encode_hex id == k)) [
            | inl here ↦
                let e : encode_hex id ≡ k = (eq_iff (encode_hex id) k).0 here in
                let was : count k v.log.taken + 1 ≤ count k v.log.issued =
                  subst (λ o. count k v.log.taken + present o ≤ count k v.log.issued)
                    (subst (λ k. ticket_at store c users k v.state ≡ some ticket) e held)
                    (i.once k) in
                let now : ticket_at store c users k w ≡ none =
                  subst (λ k. ticket_at store c users k w ≡ none) e gone in
                rw (here, now) (omega (arith, was))
            | inr other ↦ rw other (omega (arith, later.once k))
          ];
        }

    replied-IsSound :
        (id : Bytes) (v : World W) (p : Reply LoginTicket × W)
        → ((ticket : LoginTicket)
            → p.0 ≡ hit ticket
            → (ticket_at store c users (encode_hex id) v.state ≡ some ticket)
              × (ticket_at store c users (encode_hex id) p.1 ≡ none))
        → ((t : Shape) (k : String) → Fading store c t k v.state p.1)
        → IsSound store c users v
        → IsSound store c users (after_reply id v (of_reply g store p))
          × IsNoted (of_reply g store p).0 (after_reply id v (of_reply g store p))
    replied-IsSound id v (hit ticket, w) at fading i =
        let (held, gone) = at ticket refl in
        (taken-IsSound id v ticket w held gone fading i, (encode_hex id, Memᴰ.head refl))
    replied-IsSound id v (miss, w) at fading i = (
      Fades-IsSound store c users v (record v { state = w })
          (record { same_log = refl; fading = λ t k guarded. fading t k }) i,
      tt,
    )
    replied-IsSound id v (broken, w) at fading i = (
      Fades-IsSound store c users v (record v { state = w })
          (record { same_log = refl; fading = λ t k guarded. fading t k }) i,
      tt,
    )

    abbrev after_take : Option Bytes → World W → Consumed × World W
    after_take o v =
        let (r, w) = take_ticket g store o v.state in
        (r, record { state = w; log = note_taken o r v.log })

    take_ticket-IsSound :
        (o : Option Bytes) (v : World W)
        → IsSound store c users v
        → IsSound store c users (after_take o v).1 × IsNoted (after_take o v).0 (after_take o v).1
    take_ticket-IsSound none v i = (i, tt)
    take_ticket-IsSound (some id) v i =
        let k = key_login_ticket (encode_hex id) in
        replied-IsSound id v (store.get_del_json Shape.ticket_shape k v.state)
          (λ ticket e. (
            c.get_del_hit Shape.ticket_shape k v.state ticket e,
            c.get_del_gone Shape.ticket_shape Shape.ticket_shape k v.state ticket e,
          ))
          (λ t j. get_del_json-Fading store c Shape.ticket_shape t k j v.state) i

    pub consuming-IsSound :
        (token : String) (v : World W)
        → IsSound store c users v
        → IsSound store c users (consuming store g secret token v).1
          × IsNoted (consuming store g secret token v).0 (consuming store g secret token v).1
    unfolding consume
    consuming-IsSound token v i = take_ticket-IsSound (decrypt_ticket_id g secret token) v i
