-- ===== src/System.antt =====
-- The whole program around its cache: what the requests and the jobs do to it, one after the other,
-- with a log of the links that were issued and of the tickets that were consumed.
pub mod Store
pub mod Fades
pub mod Handlers
pub mod Served
pub mod Refreshes
pub mod Sound
pub mod Issues
pub mod Consumes
pub mod Creates
pub mod Requests
pub mod Genuine
pub mod Answered
use mathlib.Core.List.{Memᴰ}
use politburo.Prelude.{
  ℕ, Bool, true, false, ◌≡◌, Char, String, Option, none, some, List, [], ◌∷◌, ◌++◌,
}
use politburo.Upstream.{Time}
use politburo.Auth.{Claims, LoginTicket}
use politburo.Auth.Tickets.{
  Bytes, Cipher, encode_hex, decrypt_ticket_id, issue, Consumed, consumed, invalid, unavailable,
  consume,
}
use politburo.Flights.Mapper.{Numerics}
use politburo.Http.{Request, Headers}
use politburo.Cache
use politburo.Cache.{Shape, El}
use politburo.Cache.Keys.Laws.{Entry, key_of}
use politburo.Users.{User}
use politburo.Cache.Contract.{Contract, Forgets}
use politburo.BrowserSession.Service.{create, lookup}
use politburo.ApiKeys.Lookup
use politburo.ApiKeys.Lookup.{Database}
use politburo.Api.SignedLink.{UserLookup, TicketIssuer, ticket_for, generate_signed_link}
use politburo.Ui.{Web, TicketConsumer, input_of, login, logout}
use politburo.Ui.Laws.{manager}
use politburo.Router.{Site, signs_in, route_of, router}
use politburo.Router.Wiring.{Drawn, wired}
use politburo.Jobs.Sessions
use politburo.Jobs.Sessions.{SessionsClient}
use politburo.Jobs.Liveries
use politburo.Jobs.Liveries.{LiveriesClient}
use politburo.Jobs.Flights
use politburo.Jobs.Flights.{FlightsClient}

-- The ids under which tickets were issued, also where the issue then failed, those whose tickets were
-- consumed, and the claims of the requests for which tickets were issued, the last first.
pub record Log : Type 0 where
  pub issued : List (String × LoginTicket)
  pub taken : List (String × LoginTicket)
  pub asked : List Claims

pub record World (W : Type 0) : Type 0 where
  pub state : W
  pub log : Log

-- the entries that only a link and a login write
abbrev pub guarded : Entry → Bool
guarded (Entry.login_ticket k) = true
guarded (Entry.session k) = true
guarded e = false

-- a call that does not look at the log
abbrev pub lifted : {W A : Type 0} → (W → A × W) → World W → A × World W
lifted f v = let (a, w) = f v.state in (a, record v { state = w })

abbrev pub lifted_store : {W : Type 0} → Cache.Store W → Cache.Store (World W)
lifted_store store = record {
  get_json = λ t k. lifted (store.get_json t k);
  set_json = λ t k x ttl. lifted (store.set_json t k x ttl);
  delete = λ k. lifted (store.delete k);
  get_del_json = λ t k. lifted (store.get_del_json t k);
}

abbrev pub listed : Option Claims → List Claims
listed none = []
listed (some claims) = claims ∷ []

abbrev pub note_issued : Option Claims → Option Bytes → LoginTicket → Log → Log
note_issued asking none ticket log = log
note_issued asking (some id) ticket log = record log {
  issued = (encode_hex id, ticket) ∷ log.issued;
  asked = listed asking ++ log.asked;
}

abbrev pub note_taken : Option Bytes → Consumed → Log → Log
note_taken none c log = log
note_taken (some id) (consumed ticket) log = record log {
  taken = (encode_hex id, ticket) ∷ log.taken;
}
note_taken (some id) invalid log = log
note_taken (some id) unavailable log = log

-- What the program reaches apart from the cache; of `site`, the parts that are not its own.
pub record Outside (W : Type 0) : Type 0 where
  pub users : UserLookup W
  pub database : Database W
  pub sessions : SessionsClient W
  pub liveries : LiveriesClient W
  pub flights : FlightsClient W
  pub site : Site (World W)

module _ {W : Type 0} (store : Cache.Store W) (g : Cipher) (secret : Bytes) where
  -- the service of internal/auth, with its log, for a request with claims
  abbrev pub issuing : Option Claims → Option Bytes → Option Bytes → TicketIssuer (World W)
  issuing asking id nonce ticket v =
      let (token, w) = issue g store secret id nonce ticket v.state in
      (token, record { state = w; log = note_issued asking id ticket v.log })

  abbrev pub consuming : TicketConsumer (World W)
  consuming token v =
      let (c, w) = consume g store secret token v.state in
      (c, record { state = w; log = note_taken (decrypt_ticket_id g secret token) c v.log })

  module _ (c : Contract store) (o : Outside W) (web : Web) where
    -- A request to one of the handlers that write to the cache, any other request through the whole
    -- router, a lookup of the middleware, a run of a job, or entries that expire; from `issues` to `writes` also one call of such a request or run
    -- on its own, so that those of others may come between.
    pub data Step : World W → World W → Type 0 where
      links :
          {v : World W} (id nonce : Option Bytes) (escape : String → String) (base : String)
          (h : Headers) (body : Option String) (r : Request)
          → Step v
              (generate_signed_link
                (λ k. lifted (o.users k))
                (issuing r.claims id nonce)
                escape
                base
                h
                body
                r
                v).1
      logs_in :
          {v : World W} (uuid : String) (now : Time) (h : Headers) (r : Request)
          → Step v (login web consuming (manager web (lifted_store store) h uuid now) h r v).1
      logs_out :
          {v : World W} (uuid : String) (now : Time) (h : Headers) (r : Request)
          → Step v (logout web consuming (manager web (lifted_store store) h uuid now) h r v).1
      looks_up :
          {v : World W} (now : Time) (r : Request) → Step v (lookup (lifted_store store) now r v).1
      serves :
          {v : World W} (cookie : Headers) (drawn : Drawn) (h : Headers) (r : Request)
          → signs_in (route_of o.site r) ≡ false
          → Step v
              (router
                (wired (lifted_store store) (λ k. lifted (o.database k)) cookie drawn o.site)
                h
                r
                v).1
      checks_key :
          {v : World W} (r : Request) (key : String)
          → Step v (Lookup.lookup (lifted_store store) (λ k. lifted (o.database k)) r key v).1
      refreshes_sessions :
          {v : World W} (lower : Char → Char) (now : Time)
          → Step v (Sessions.run (lifted_store store) (lifted o.sessions) lower now v).1
      refreshes_liveries :
          {v : World W} → Step v (Liveries.run (lifted_store store) (lifted o.liveries) v).1
      refreshes_flights :
          {v : World W} (go : Numerics) (now : Time)
          → Step v (Flights.run (lifted_store store) (λ id. lifted (o.flights id)) go now v).1
      issues :
          {v : World W} (id nonce : Option Bytes) (claims : Claims) (user : User) (path : String)
          (seen : W)
          → (o.users claims.ds_user_id seen).0 ≡ some (some user)
          → Step v (issuing (some claims) id nonce (ticket_for user claims path) v).1
      takes : {v : World W} (token : String) → Step v (consuming token v).1
      creates_session :
          {v : World W} (uuid : String) (now : Time) (id : String) (ticket : LoginTicket)
          → Memᴰ (id, ticket) v.log.taken
          → Step v (create (lifted_store store) uuid now (input_of ticket) v).1
      deletes : {v : World W} (key : String) → Step v ((lifted_store store).delete key v).1
      writes :
          {v : World W} (t : Shape) (e : Entry) (x : El t) (ttl : ℕ)
          → guarded e ≡ false
          → Step v ((lifted_store store).set_json t (key_of e) x ttl v).1
      expires : {v : World W} (w : W) → Forgets c v.state w → Step v (record v { state = w })

    pub data Reachable (w₀ : W) : World W → Type 0 where
      at_start :
          Reachable w₀ (record { state = w₀; log = record { issued = []; taken = []; asked = [] } })
      then_step : {v v' : World W} → Reachable w₀ v → Step v v' → Reachable w₀ v'
