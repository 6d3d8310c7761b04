-- ===== src/System/Served.antt =====
-- The whole router over the program's own lookups, tickets and sessions, for the requests that are led
-- neither to the signed link nor to the login.
use politburo.Prelude.{ℕ, String, false, ◌≡◌}
use politburo.Http.{Request, Response, Headers}
use politburo.Cache
use politburo.Cache.Contract.{Contract}
use politburo.ApiKeys.Lookup.{Database}
use politburo.Router.{Reply, Site, signs_in, route_of, router}
use politburo.Router.Guarded.{IsChi}
use politburo.Router.Reads.{IsKept}
use politburo.Router.Kept.{RoutesApart, router-keeps}
use politburo.Router.Wiring.{Drawn, wired, wired-IsChi}
use politburo.System.{Outside, World, lifted, lifted_store}
use politburo.System.Fades.{Fades, IsSteady, Fades-refl, Fades-trans, get_json-Fades}
use politburo.System.Handlers.{lookup-Fades, key_lookup-Fades, session_delete-Fades}

module _ {W : Type 0} (store : Cache.Store W) (c : Contract store) where
  -- what the parts of a site that are not the program's own do: nothing to tickets and sessions
  pub record IsQuiet (site : Site (World W)) : Type 0 where
    pub draws : (v : World W) → Fades store c v (site.draw v).1
    pub pings_database : (v : World W) → Fades store c v (site.ping_database v).1
    pub pings_redis : (v : World W) → Fades store c v (site.ping_redis v).1
    pub observes :
        (method route : String) (status : ℕ) (v : World W)
        → Fades store c v (site.observe method route status v)
    pub shows_metrics :
        (h : Headers) (r : Request) (v : World W) → Fades store c v (site.metrics_handler h r v).1
    pub serves_files :
        (h : Headers) (r : Request) (v : World W) → Fades store c v (site.static_handler h r v).1
    pub finds_none :
        (h : Headers) (r : Request) (v : World W) → Fades store c v (site.not_found h r v).1
    pub recovers :
        (h : Headers) (r : Request) (p : Response Reply × World W)
        → Fades store c p.1 (site.recovered h r p).1
    pub same_id : IsChi site
    pub apart : RoutesApart site

  pub record AreSteady (o : Outside W) : Type 0 where
    pub users : (id : String) → IsSteady store c (o.users id)
    pub database : (key : String) → IsSteady store c (o.database key)
    pub sessions : IsSteady store c o.sessions
    pub liveries : IsSteady store c o.liveries
    pub flights : (id : String) → IsSteady store c (o.flights id)
    pub site : IsQuiet o.site

  module _ (db : Database W) (site : Site (World W)) (cookie : Headers) (drawn : Drawn) where
    abbrev pub ours : Site (World W)
    ours = wired (lifted_store store) (λ k. lifted (db k)) cookie drawn site

  module _ (db : Database W) (steady : (key : String) → IsSteady store c (db key))
      (site : Site (World W)) (quiet : IsQuiet site) (cookie : Headers) (drawn : Drawn) where
    abbrev our_site : Site (World W)
    our_site = ours db site cookie drawn

    ours-IsKept : (v : World W) → IsKept our_site (Fades store c v)
    ours-IsKept v =
        let next : (u u' : World W) → Fades store c v u → Fades store c u u' → Fades store c v u' =
          Fades-trans store c v in
        record {
          reads = λ t k u f. next u _ f (get_json-Fades store c t k u);
          draws = λ u f. next u _ f (quiet.draws u);
          pings_database = λ u f. next u _ f (quiet.pings_database u);
          pings_redis = λ u f. next u _ f (quiet.pings_redis u);
          api_keys = λ r key u f. next u _ f (key_lookup-Fades store c db steady r key u);
          sessions = λ r u f. next u _ f (lookup-Fades store c drawn.now r u);
          deletes = λ id u f. next u _ f (session_delete-Fades store c id u);
          observes = λ m p s u f. next u _ f (quiet.observes m p s u);
          shows_metrics = λ h r u f. next u _ f (quiet.shows_metrics h r u);
          serves_files = λ h r u f. next u _ f (quiet.serves_files h r u);
          finds_none = λ h r u f. next u _ f (quiet.finds_none h r u);
          recovers = λ h r p f. next p.1 _ f (quiet.recovers h r p);
        }

    -- A request that the router leads neither to the signed link nor to the login, whatever its
    -- credentials, writes no ticket and no session: each stays as it was or is gone. The database is
    -- taken to leave the cache as it is, and the parts of the router that are not the program's own
    -- to write no ticket and no session.
    pub router-Fades :
        (h : Headers) (r : Request) (v : World W)
        → signs_in (route_of site r) ≡ false
        → Fades store c v (router our_site h r v).1
    unfolding route_of
    router-Fades h r v plain =
        router-keeps our_site (Fades store c v) (ours-IsKept v) h r v
          (wired-IsChi (lifted_store store) (λ k. lifted (db k)) cookie drawn site quiet.same_id)
          quiet.apart plain (Fades-refl store c v)
