-- ===== src/ApiKeys/Lookup/Laws.antt =====
-- The cached status of a key against the database.
use politburo.Prelude.{
  String, Bool, true, false, Option, none, some, ◌≡◌, ◌⊎◌, inl, inr, refl, sym, ap, subst, ◌∙◌,
  none≢some, if◌then◌else◌,
}
use politburo.Http.{Request}
use politburo.Middleware
use politburo.Middleware.{found, absent, failed}
use politburo.Cache.{Shape, Reply, hit, miss, broken, Store}
use politburo.Cache.Contract.{Contract}
use politburo.Cache.Keys.{key_api_key_status}
use politburo.ApiKeys.{StatusCache}
use politburo.ApiKeys.Lookup.{
  cache_ttl, Row, row, no_rows, row_failed, active_of, Database, key_only, usable, remembered,
  from_repository, or_repository, active, as_lookup, lookup,
}

-- the answer for a row of the database, with no cache between
abbrev pub answer_for : Row → Middleware.Lookup
answer_for (row true) = found key_only
answer_for (row false) = absent
answer_for no_rows = absent
answer_for row_failed = failed

abbrev answer_of : Option StatusCache → Middleware.Lookup
answer_of none = failed
answer_of (some status) = if usable status then found key_only else absent

answer_of-active_of : (r : Row) → answer_of (active_of r) ≡ answer_for r
unfolding active_of
answer_of-active_of (row true) = refl
answer_of-active_of (row false) = refl
answer_of-active_of no_rows = refl
answer_of-active_of row_failed = refl

answered_usable :
    {W : Type 0} (store : Store W) (db : Database W) (b : Bool) (w : W)
    → (as_lookup store db (some b, w)).0 ≡ (if b then found key_only else absent)
answered_usable store db true w = refl
answered_usable store db false w = refl

as_lookup-state :
    {W : Type 0} (store : Store W) (db : Database W) (p : Option Bool × W)
    → (as_lookup store db p).1 ≡ p.1
as_lookup-state store db (none, w) = refl
as_lookup-state store db (some true, w) = refl
as_lookup-state store db (some false, w) = refl

module _ {W : Type 0} (store : Store W) (c : Contract store) (db : Database W) (key : String)
    (r : Row) (steady : (w : W) → (db key w).0 ≡ r)
    (apart : (w : W)
      → c.holds Shape.status_shape (key_api_key_status key) (db key w).1
        ≡ c.holds Shape.status_shape (key_api_key_status key) w) where
  abbrev status_of : W → Option StatusCache
  status_of w = c.holds Shape.status_shape (key_api_key_status key) w

  -- the cache holds nothing for the key, or the status of its row
  abbrev pub IsFresh : W → Type 0
  IsFresh w = (status_of w ≡ none) ⊎ (status_of w ≡ active_of r)

  answered :
      (o : Option StatusCache) (w : W)
      → (as_lookup store db (remembered store db key (o, w))).0 ≡ answer_of o
  answered none w = refl
  answered (some status) w = answered_usable store db (usable status) _

  kept :
      (o : Option StatusCache) (w : W)
      → o ≡ active_of r
      → IsFresh w
      → IsFresh (remembered store db key (o, w)).1
  kept none w e f = f
  kept (some status) w e f =
      elim (c.set_either Shape.status_shape (key_api_key_status key) status cache_ttl w) [
        | inl old ↦ subst (λ o. (o ≡ none) ⊎ (o ≡ active_of r)) (sym old) f
        | inr new ↦ inr (new ∙ e)
      ]

  -- what the repository answers, and the state behind it
  module _ (w : W) (f : IsFresh w) where
    from_row :
        ((as_lookup store db (remembered store db key (from_repository store db key w))).0
          ≡ answer_for r)
        × IsFresh (remembered store db key (from_repository store db key w)).1
    from_row =
        let o = active_of (db key w).0 in
        let e : o ≡ active_of r = ap active_of (steady w) in
        (
          answered o (db key w).1 ∙ ap answer_of e ∙ answer_of-active_of r,
          kept o (db key w).1 e (subst (λ s. (s ≡ none) ⊎ (s ≡ active_of r)) (sym (apart w)) f),
        )

  or_repository-IsFresh :
      (reply : Reply StatusCache × W)
      → ((status : StatusCache) → reply.0 ≡ hit status → some status ≡ active_of r)
      → IsFresh reply.1
      → ((as_lookup store db (or_repository store db key reply)).0 ≡ answer_for r)
        × IsFresh (or_repository store db key reply).1
  or_repository-IsFresh (hit status, w) same f = (
    answered_usable store db (usable status) w
        ∙ ap answer_of (same status refl)
        ∙ answer_of-active_of r,
    f,
  )
  or_repository-IsFresh (miss, w) same f = from_row w f
  or_repository-IsFresh (broken, w) same f = from_row w f

  same :
      (w : W)
      → IsFresh w
      → (status : StatusCache)
      → (store.get_json Shape.status_shape (key_api_key_status key) w).0 ≡ hit status
      → some status ≡ active_of r
  same w f status read =
      let holds = c.get_hit Shape.status_shape (key_api_key_status key) w status read in
      elim f [ inl gone ↦ absurd (none≢some (sym gone ∙ holds)) | inr agrees ↦ sym holds ∙ agrees ]

  -- While the row of a key does not change, a lookup answers by that row, whether the cache holds
  -- its status, has lost it or fails; what the cache holds for the key afterwards agrees with the
  -- row again.
  pub lookup-answer_for :
      (req : Request) (w : W)
      → IsFresh w
      → ((lookup store db req key w).0 ≡ answer_for r) × IsFresh (lookup store db req key w).1
  unfolding lookup active
  lookup-answer_for req w f =
      let k = key_api_key_status key in
      let (answer, fresh) =
        or_repository-IsFresh (store.get_json Shape.status_shape k w) (same w f) (
          subst (λ s. (s ≡ none) ⊎ (s ≡ active_of r))
            (sym (c.get_keeps Shape.status_shape Shape.status_shape k k w)) f) in
      (answer, subst IsFresh (sym (as_lookup-state store db _)) fresh)
