-- ===== src/Router/Wiring.antt =====
-- internal/app/app.go and `router` of internal/transport/http/server.go: which services the router's
-- handlers are given.
use politburo.Prelude.{String, Option}
use politburo.Upstream.{Time}
use politburo.Auth.Tickets.{Bytes, issue, consume}
use politburo.Http.{Headers}
use politburo.Cache.{Store}
use politburo.BrowserSession.Service.{lookup}
use politburo.ApiKeys.Lookup
use politburo.ApiKeys.Lookup.{Database}
use politburo.Ui.Laws.{manager}
use politburo.Router.{Site}
use politburo.Router.Guarded.{IsChi}

-- What a request draws: the clock, the id of a session, and the id and the nonce of a ticket, `none`
-- when the source of randomness fails.
pub record Drawn : Type 0 where
  pub now : Time
  pub uuid : String
  pub ticket_id : Option Bytes
  pub nonce : Option Bytes

-- A site whose lookups, tickets and sessions are the program's own, over one cache; `h` are the
-- headers of a response that sets a cookie.
abbrev pub wired : {W : Type 0} → Store W → Database W → Headers → Drawn → Site W → Site W
wired store database h drawn site = record site {
  store = store;
  issuer = issue site.cipher store site.secret drawn.ticket_id drawn.nonce;
  consumer = consume site.cipher store site.secret;
  manager = manager site.web store h drawn.uuid drawn.now;
  api_keys = Lookup.lookup store database;
  sessions = lookup store drawn.now;
}

pub wired-IsChi :
    {W : Type 0} (store : Store W) (database : Database W) (h : Headers) (drawn : Drawn)
    (site : Site W)
    → IsChi site
    → IsChi (wired store database h drawn site)
wired-IsChi store database h drawn site chi = record {
  request_id_same = chi.request_id_same;
  recovered_same = chi.recovered_same;
}
