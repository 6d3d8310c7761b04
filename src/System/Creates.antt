-- ===== src/System/Creates.antt =====
-- The call that writes a session keeps what holds.
use mathlib.Core.List.{Memᴰ}
use politburo.Prelude.{
  String, Bool, true, false, some, ◌==◌, ◌≡◌, inl, inr, refl, sym, subst, ◌∙◌, arith, eq_iff,
  eq_of_some, Bool-cases,
}
use politburo.Upstream.{Time}
use politburo.Auth.{LoginTicket}
use politburo.BrowserSession.{Session, ttl}
use politburo.BrowserSession.Service.{new_session, created, create}
use politburo.Cache
use politburo.Cache.{Shape, Reply, hit, miss, broken}
use politburo.Cache.Contract.{Contract}
use politburo.Cache.Keys.{key_login_ticket, key_session}
use politburo.Cache.Keys.Laws.{key_session-ne, key_login_ticket-key_session}
use politburo.Api.SignedLink.{UserLookup}
use politburo.Ui.{input_of}
use politburo.System.{World, lifted_store}
use politburo.System.Sound.{ticket_at, session_at, IsSigned, IsSound}

module _ {W : Type 0} (store : Cache.Store W) (c : Contract store) (users : UserLookup W) where
  created-state : (s : Session) (p : Bool × World W) → (created (lifted_store store) s p).1 ≡ p.1
  created-state s (true, v) = refl
  created-state s (false, v) = refl

  -- a session for a ticket of the log
  pub create-IsSound :
      (uuid : String) (now : Time) (k : String) (ticket : LoginTicket) (v : World W)
      → Memᴰ (k, ticket) v.log.taken
      → IsSound store c users v
      → IsSound store c users (create (lifted_store store) uuid now (input_of ticket) v).1
  unfolding create
  create-IsSound uuid now k ticket v m i =
      let s = new_session uuid now (input_of ticket) in
      let key = key_session uuid in
      let set = store.set_json Shape.session_shape key s ttl v.state in
      let other_ticket : (j : String)
          → ticket_at store c users j set.1 ≡ ticket_at store c users j v.state =
        λ j.
          c.set_ne Shape.session_shape Shape.ticket_shape key (key_login_ticket j) s ttl v.state
            (key_login_ticket-key_session j uuid) in
      subst (IsSound store c users)
        (sym (created-state s ((lifted_store store).set_json Shape.session_shape key s ttl v)))
        (record {
          earned = i.earned;
          origin = i.origin;
          tickets = λ j t at. i.tickets j t (sym (other_ticket j) ∙ at);
          sessions = λ j t at. written j t at;
          once = λ j. rw (other_ticket j) (i.once j);
        })
    where
      written :
          (j : String) (t : Session)
          → session_at store c users j
              (store.set_json Shape.session_shape
                (key_session uuid)
                (new_session uuid now (input_of ticket))
                ttl
                v.state).1
            ≡ some t
          → IsSigned store c users v.log.taken t
      written j t at =
          let s = new_session uuid now (input_of ticket) in
          let key = key_session uuid in
          let made : (t : Session) → s ≡ t → IsSigned store c users v.log.taken t = λ t e.
            subst (IsSigned store c users v.log.taken) e
              (record { id = k; ticket = ticket; at = now; consumed = m; made = refl }) in
          elim (Bool-cases (j == uuid)) [
            | inl here ↦
                let e : j ≡ uuid = (eq_iff j uuid).0 here in
                let at' = rw e at at in
                elim (c.set_either Shape.session_shape key s ttl v.state) [
                  | inl unset ↦ i.sessions uuid t (sym unset ∙ at')
                  | inr wrote ↦ made t (eq_of_some (sym wrote ∙ at'))
                ]
            | inr other ↦ i.sessions j t (
                sym (
                  c.set_ne Shape.session_shape Shape.session_shape key (key_session j) s ttl v.state
                    (key_session-ne j uuid (ground (arith, eq_iff j uuid))))
                ∙ at)
          ]
