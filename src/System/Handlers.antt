-- ===== src/System/Handlers.antt =====
-- The handlers and the lookups that write no ticket and no session, and what the others keep.
use politburo.Prelude.{
  String, Bool, true, false, Option, none, some, ◌==◌, ◌≡◌, inl, inr, refl, sym, ap, ◌∙◌, subst,
  Bool-cases,
}
use politburo.Upstream.{Time}
use politburo.Http.{Request, Headers}
use politburo.Cache
use politburo.Cache.{Shape, Reply, hit, miss, broken}
use politburo.Cache.Contract.{Contract}
use politburo.Cache.Keys.{key_api_key_status, key_session}
use politburo.Cache.Keys.Laws.{Entry, key_of, key_of-injective}
use politburo.BrowserSession.{Session, expired}
use politburo.BrowserSession.Cookie.{session_id_from_request}
use politburo.BrowserSession.Service.{checked, as_lookup, delete, get, lookup}
use politburo.ApiKeys.{StatusCache}
use politburo.ApiKeys.Lookup
use politburo.ApiKeys.Lookup.{Database, active_of, remembered, or_repository, from_repository}
use politburo.Ui.{Web, TicketConsumer, SessionManager, logout}
use politburo.System.{guarded, World, lifted, lifted_store}
use politburo.System.Fades.{
  IsGuarded, Fades, IsSteady, Fades-refl, Fades-trans, steady-Fades, get_json-Fades, set_json-Fades,
  delete-Fades,
}

pub key_of-free : (e : Entry) → guarded e ≡ false → ¬ IsGuarded (key_of e)
unfolding key_of
key_of-free e free (inl (j, at)) =
    let same : guarded e ≡ true = ap guarded (key_of-injective e (Entry.login_ticket j) at) in
    let clash : false ≡ true = sym free ∙ same in cc
key_of-free e free (inr (j, at)) =
    let same : guarded e ≡ true = ap guarded (key_of-injective e (Entry.session j) at) in
    let clash : false ≡ true = sym free ∙ same in cc

module _ {W : Type 0} (store : Cache.Store W) (c : Contract store) where
  pub session_delete-Fades :
      (id : String) (v : World W) → Fades store c v (delete (lifted_store store) id v).1
  unfolding delete
  session_delete-Fades id v = elim (Bool-cases (id == "")) [
    | inl blank ↦ rw blank (Fades-refl store c v)
    | inr named ↦ rw named (delete-Fades store c (key_session id) v)
  ]

  checked-Fades :
      (id : String) (now : Time) (v : World W) (p : Reply Session × World W)
      → Fades store c v p.1
      → Fades store c v (checked (lifted_store store) id now p).1
  checked-Fades id now v (hit s, v') f = elim (Bool-cases (expired s now)) [
    | inl old ↦ rw old (Fades-trans store c v v' _ f (session_delete-Fades id v'))
    | inr live ↦ rw live f
  ]
  checked-Fades id now v (miss, v') f = f
  checked-Fades id now v (broken, v') f = f

  as_lookup-state : (p : Reply Session × World W) → (as_lookup (lifted_store store) p).1 ≡ p.1
  as_lookup-state (hit s, v) = refl
  as_lookup-state (miss, v) = refl
  as_lookup-state (broken, v) = refl

  pub lookup-Fades :
      (now : Time) (r : Request) (v : World W)
      → Fades store c v (lookup (lifted_store store) now r v).1
  unfolding lookup get
  lookup-Fades now r v =
      let id = session_id_from_request r in
      elim (Bool-cases (id == "")) [
        | inl blank ↦ rw blank (Fades-refl store c v)
        | inr named ↦
            let read = (lifted_store store).get_json Shape.session_shape (key_session id) v in
            rw named (
              subst (Fades store c v)
                (sym (as_lookup-state (checked (lifted_store store) id now read)))
                (checked-Fades id now v read (get_json-Fades store c _ _ v)))
      ]

  module _ (db : Database W) (steady : (key : String) → IsSteady store c (db key)) where
    abbrev queries : Database (World W)
    queries key = lifted (db key)

    remembered-Fades :
        (key : String) (v : World W) (p : Option StatusCache × World W)
        → Fades store c v p.1
        → Fades store c v (remembered (lifted_store store) queries key p).1
    unfolding key_of
    remembered-Fades key v (none, v') f = f
    remembered-Fades key v (some status, v') f = Fades-trans store c v v' _ f (
        set_json-Fades store c Shape.status_shape (key_api_key_status key) status _ v'
          (key_of-free (Entry.api_key_status key) refl))

    or_repository-Fades :
        (key : String) (v : World W) (p : Reply StatusCache × World W)
        → Fades store c v p.1
        → Fades store c v (or_repository (lifted_store store) queries key p).1
    or_repository-Fades key v (hit status, v') f = f
    or_repository-Fades key v (miss, v') f =
        remembered-Fades key v (from_repository (lifted_store store) queries key v')
          (Fades-trans store c v v' _ f (steady-Fades store c (db key) v' (steady key)))
    or_repository-Fades key v (broken, v') f =
        remembered-Fades key v (from_repository (lifted_store store) queries key v')
          (Fades-trans store c v v' _ f (steady-Fades store c (db key) v' (steady key)))

    key_lookup-state :
        (p : Option Bool × World W) → (Lookup.as_lookup (lifted_store store) queries p).1 ≡ p.1
    key_lookup-state (none, v) = refl
    key_lookup-state (some true, v) = refl
    key_lookup-state (some false, v) = refl

    pub key_lookup-Fades :
        (r : Request) (key : String) (v : World W)
        → Fades store c v (Lookup.lookup (lifted_store store) queries r key v).1
    unfolding Lookup.lookup Lookup.active
    key_lookup-Fades r key v =
        let read = (lifted_store store).get_json Shape.status_shape (key_api_key_status key) v in
        subst (Fades store c v)
          (sym (key_lookup-state (or_repository (lifted_store store) queries key read)))
          (or_repository-Fades key v read (get_json-Fades store c _ _ v))

  pub logout-Fades :
      (web : Web) (tickets : TicketConsumer (World W)) (sessions : SessionManager (World W))
      (h : Headers) (r : Request) (v : World W)
      → sessions.delete ≡ delete (lifted_store store)
      → Fades store c v (logout web tickets sessions h r v).1
  unfolding logout
  logout-Fades web tickets sessions h r v e =
      rw e (session_delete-Fades (session_id_from_request r) v)
