-- ===== src/ApiKeys/Lookup/Active.antt =====
-- Which keys the lookup accepts, whatever the cache and the database hold.
use politburo.Prelude.{Bool, String, true, false, Option, none, some, ◌≡◌, refl, sym, ap, subst}
use politburo.Auth.{Claims}
use politburo.Http.{Request}
use politburo.Middleware.{found}
use politburo.Cache.{Shape, Reply, hit, miss, broken, Store}
use politburo.Cache.Keys.{key_api_key_status}
use politburo.ApiKeys.{StatusCache}
use politburo.ApiKeys.Lookup.{
  Row, row, no_rows, row_failed, active_of, Database, key_only, usable, remembered, or_repository,
  active, as_lookup, lookup,
}

module _ {W : Type 0} (store : Store W) (db : Database W) (key : String) where
  abbrev read : W → Reply StatusCache × W
  read w = store.get_json Shape.status_shape (key_api_key_status key) w

  -- a key that is active by the cache, or by the database when it is asked
  pub data IsActive (w : W) : Type 0 where
    by_cache : (status : StatusCache) → (read w).0 ≡ hit status → usable status ≡ true → IsActive w
    by_database : (db key (read w).1).0 ≡ row true → IsActive w

  usable_row :
      (r : Row) (w : W) → (remembered store db key (active_of r, w)).0 ≡ some true → r ≡ row true
  unfolding active_of
  usable_row (row true) w e = refl
  usable_row (row false) w e = cc
  usable_row no_rows w e = cc
  usable_row row_failed w e = cc

  or_repository-IsActive :
      (w : W) (reply : Reply StatusCache × W)
      → reply ≡ read w
      → (or_repository store db key reply).0 ≡ some true
      → IsActive w
  or_repository-IsActive w (hit status, w') at e = by_cache status (ap (λ p. p.0) (sym at)) cc
  or_repository-IsActive w (miss, w') at e =
      by_database
        (subst (λ u. (db key u).0 ≡ row true) (ap (λ p. p.1) at) (usable_row (db key w').0 _ e))
  or_repository-IsActive w (broken, w') at e =
      by_database
        (subst (λ u. (db key u).0 ≡ row true) (ap (λ p. p.1) at) (usable_row (db key w').0 _ e))

  as_lookup-found :
      (p : Option Bool × W) (cl : Claims)
      → (as_lookup store db p).0 ≡ found cl
      → (p.0 ≡ some true) × (cl ≡ key_only)
  as_lookup-found (none, w) cl e = cc
  as_lookup-found (some true, w) cl e = (refl, cc)
  as_lookup-found (some false, w) cl e = cc

  -- A key that the lookup accepts is active, and its claims say no more than that there is a key.
  pub lookup-IsActive :
      (r : Request) (w : W) (cl : Claims)
      → (lookup store db r key w).0 ≡ found cl
      → IsActive w × (cl ≡ key_only)
  unfolding lookup active
  lookup-IsActive r w cl e =
      let (usable, bare) = as_lookup-found (or_repository store db key (read w)) cl e in
      (or_repository-IsActive w (read w) refl usable, bare)
