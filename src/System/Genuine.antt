-- ===== src/System/Genuine.antt =====
-- What stands behind the claims of a browser, in every state that the program comes to.
use mathlib.Core.List.{Memᴰ}
use mathlib.Core.List.Memᴰ
use politburo.Prelude.{
  ◌+◌, ◌≤◌, String, false, none, some, [], ◌∷◌, ◌≡◌, refl, sym, ap, subst, ◌∙◌, arith, none≢some,
}
use politburo.Upstream.{Time}
use politburo.Auth.{Claims, LoginTicket}
use politburo.Auth.Tickets.{Bytes, Cipher}
use politburo.Users.{User}
use politburo.Http.{Request}
use politburo.Middleware.{found}
use politburo.Cache
use politburo.Cache.{Shape}
use politburo.Cache.Contract.{Contract}
use politburo.BrowserSession.{Session, ttl, claims}
use politburo.BrowserSession.Service.{new_session, lookup}
use politburo.BrowserSession.Service.Laws.{lookup-found}
use politburo.BrowserSession.Cookie.{session_id_from_request}
use politburo.Api.SignedLink.{ticket_for}
use politburo.Ui.{Web, input_of}
use politburo.Ui.Laws.{manager}
use politburo.System.{
  World, Outside, lifted_store, consuming, Step, links, logs_in, logs_out, serves, looks_up,
  checks_key, refreshes_sessions, refreshes_liveries, refreshes_flights, issues, takes,
  creates_session, deletes, writes, expires, Reachable, at_start, then_step,
}
use politburo.Cache.Keys.Laws.{key_of}
use politburo.System.Issues.{issuing-IsSound}
use politburo.System.Consumes.{consuming-IsSound}
use politburo.System.Creates.{create-IsSound}
use politburo.System.Fades.{Forgets-Fades, delete-Fades, set_json-Fades}
use politburo.System.Handlers.{key_of-free, lookup-Fades, key_lookup-Fades, logout-Fades}
use politburo.System.Refreshes.{sessions_run-Fades, liveries_run-Fades, flights_run-Fades}
use politburo.System.Requests.{generate_signed_link-IsSound, login-IsSound}
use politburo.System.Served.{AreSteady, router-Fades}
use politburo.System.Sound.{count, present, IsEarned, ticket_at, session_at, IsSound, Fades-IsSound}

module _ {W : Type 0} (store : Cache.Store W) (g : Cipher) (secret : Bytes) (c : Contract store)
    (o : Outside W) (web : Web) where
  -- a cache without tickets and sessions
  pub record HasNone (w : W) : Type 0 where
    pub no_ticket : (k : String) → ticket_at store c o.users k w ≡ none
    pub no_session : (k : String) → session_at store c o.users k w ≡ none

  start-IsSound :
      (w : W)
      → HasNone w
      → IsSound store c o.users
          (record { state = w; log = record { issued = []; taken = []; asked = [] } })
  unfolding count
  start-IsSound w empty = record {
    earned = λ k t m. absurd (Memᴰ.not-nil m);
    origin = λ k t m. absurd (Memᴰ.not-nil m);
    tickets = λ k t at. absurd (none≢some (sym (empty.no_ticket k) ∙ at));
    sessions = λ k s at. absurd (none≢some (sym (empty.no_session k) ∙ at));
    once = λ k. rw (empty.no_ticket k) (omega arith);
  }

  Step-IsSound :
      (v v' : World W)
      → AreSteady store c o
      → Step store g secret c o web v v'
      → IsSound store c o.users v
      → IsSound store c o.users v'
  Step-IsSound v v' steady (links id drawn escape base h body r) i =
      generate_signed_link-IsSound store c o.users g secret id drawn escape base h steady.users body
        r v i
  Step-IsSound v v' steady (logs_in uuid now h r) i =
      login-IsSound store c o.users g secret web uuid now h r v i
  Step-IsSound v v' steady (logs_out uuid now h r) i =
      Fades-IsSound store c o.users v v'
        (logout-Fades store c web (consuming store g secret)
          (manager web (lifted_store store) h uuid now) h r v refl)
        i
  Step-IsSound v v' steady (serves cookie drawn h r plain) i =
      Fades-IsSound store c o.users v v'
        (router-Fades store c o.database steady.database o.site steady.site cookie drawn h r v
          plain)
        i
  Step-IsSound v v' steady (looks_up now r) i =
      Fades-IsSound store c o.users v v' (lookup-Fades store c now r v) i
  Step-IsSound v v' steady (checks_key r key) i =
      Fades-IsSound store c o.users v v'
        (key_lookup-Fades store c o.database steady.database r key v) i
  Step-IsSound v v' steady (refreshes_sessions lower now) i =
      Fades-IsSound store c o.users v v'
        (sessions_run-Fades store c o.sessions lower now v steady.sessions) i
  Step-IsSound v v' steady refreshes_liveries i =
      Fades-IsSound store c o.users v v' (liveries_run-Fades store c o.liveries v steady.liveries) i
  Step-IsSound v v' steady (refreshes_flights go now) i =
      Fades-IsSound store c o.users v v'
        (flights_run-Fades store c o.flights go now v steady.flights) i
  Step-IsSound v v' steady (issues id drawn claims user path seen known) i =
      let good : IsEarned o.users (claims ∷ v.log.asked) (ticket_for user claims path) = record {
        claims = claims;
        asking = Memᴰ.head refl;
        user = user;
        redirect_to = path;
        seen = seen;
        known = known;
        same = refl;
      } in
      issuing-IsSound store c o.users g secret claims id drawn (ticket_for user claims path) v good
        i
  Step-IsSound v v' steady (takes token) i =
      (consuming-IsSound store c o.users g secret token v i).0
  Step-IsSound v v' steady (creates_session uuid now id ticket m) i =
      create-IsSound store c o.users uuid now id ticket v m i
  Step-IsSound v v' steady (deletes key) i =
      Fades-IsSound store c o.users v v' (delete-Fades store c key v) i
  Step-IsSound v v' steady (writes t e x ttl free) i =
      Fades-IsSound store c o.users v v'
        (set_json-Fades store c t (key_of e) x ttl v (key_of-free e free)) i
  Step-IsSound v v' steady (expires w f) i =
      Fades-IsSound store c o.users v v' (Forgets-Fades store c v w f) i

  pub Reachable-IsSound :
      (w : W) (v : World W)
      → HasNone w
      → AreSteady store c o
      → Reachable store g secret c o web w v
      → IsSound store c o.users v
  Reachable-IsSound w v empty steady at_start = start-IsSound w empty
  Reachable-IsSound w v empty steady (then_step before step) =
      Step-IsSound _ v steady step (Reachable-IsSound w _ empty steady before)

  -- Claims of a browser that stand on a ticket: the ticket was issued and consumed, for a user whom
  -- the lookup found for the Discord id of the request for the link. The cache holds the session of the
  -- cookie, and it was created at most seven days before.
  pub record IsGenuine (v : World W) (now : Time) (r : Request) (cl : Claims) : Type 0 where
    pub id : String
    pub ticket : LoginTicket
    pub asking : Claims
    pub user : User
    pub seen : W
    pub session : Session
    pub is_held : session_at store c o.users (session_id_from_request r) v.state ≡ some session
    pub of_user : session.user_id ≡ user.id
    pub issued : Memᴰ (id, ticket) v.log.issued
    pub taken : Memᴰ (id, ticket) v.log.taken
    pub requested : Memᴰ asking v.log.asked
    pub known : (o.users asking.ds_user_id seen).0 ≡ some (some user)
    pub in_time : now ≤ session.created_at + ttl
    pub granted : cl ≡ record {
      pb_user_id = user.id;
      role = "";
      ds_user_id = user.discord_id;
      ds_server_id = asking.ds_server_id;
      pb_server_id = "";
      api_key_present = false;
    }

  -- However the requests, the jobs and the expiry of entries follow each other from a cache without
  -- tickets and sessions, a cookie gives claims only if a link was issued and opened for them: they
  -- are those of the user whom the lookup found for the Discord id in the claims of the request for
  -- the link, with the Discord server of those claims. The cache then holds the session of the
  -- cookie, which is that user's, and the date of its creation is at most seven days back.
  -- The database and the API are taken to leave the cache as it is, and the parts of the router that
  -- are not the program's own to write no ticket and no session.
  pub lookup-IsGenuine :
      (w : W) (v : World W) (now : Time) (r : Request) (cl : Claims)
      → HasNone w
      → AreSteady store c o
      → Reachable store g secret c o web w v
      → (lookup store now r v.state).0 ≡ found cl
      → IsGenuine v now r cl
  lookup-IsGenuine w v now r cl empty steady reached e =
      let i = Reachable-IsSound w v empty steady reached in
      let (named, (s, held, live, same)) = lookup-found store c now r v.state cl e in
      let signed = i.sessions (session_id_from_request r) s held in
      let issued = i.origin signed.id signed.ticket signed.consumed in
      let earned = i.earned signed.id signed.ticket issued in
      let ticket = ticket_for earned.user earned.claims earned.redirect_to in
      let made : s ≡ new_session s.session_id signed.at (input_of ticket) =
        subst (λ t. s ≡ new_session s.session_id signed.at (input_of t)) earned.same signed.made in
      record {
        id = signed.id;
        ticket = signed.ticket;
        asking = earned.claims;
        user = earned.user;
        seen = earned.seen;
        session = s;
        is_held = held;
        of_user = ap (λ (s : Session). s.user_id) made;
        issued = issued;
        taken = signed.consumed;
        requested = earned.asking;
        known = earned.known;
        in_time =
            let dated : s.expires_at ≡ s.created_at + ttl =
              subst (λ (s : Session). s.expires_at ≡ s.created_at + ttl) (sym made) refl in
            subst (λ t. now ≤ t) dated live;
        granted = same ∙ ap claims made;
      }

  -- However the requests, the jobs and the expiry of entries follow each other from a cache without
  -- tickets and sessions, no ticket id has been consumed more often than it was issued, and while
  -- the cache still holds its ticket, less often. The database and the API are taken to leave the
  -- cache as it is, and the parts of the router that are not the program's own to write no ticket and
  -- no session.
  pub taken_le_issued :
      (w : W) (v : World W) (k : String)
      → HasNone w
      → AreSteady store c o
      → Reachable store g secret c o web w v
      → count k v.log.taken + present (ticket_at store c o.users k v.state) ≤ count k v.log.issued
  taken_le_issued w v k empty steady reached = (Reachable-IsSound w v empty steady reached).once k
