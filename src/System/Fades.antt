-- ===== src/System/Fades.antt =====
-- The calls that write no ticket and no session: both may be gone afterwards, and none is new.
use politburo.Prelude.{
  ℕ, String, none, ◌==◌, ◌≡◌, ◌⊎◌, inl, inr, refl, sym, subst, ◌∙◌, arith, eq_iff, Bool-cases,
}
use politburo.Cache
use politburo.Cache.{Shape, El}
use politburo.Cache.Contract.{Contract, Forgets}
use politburo.Cache.Keys.{key_login_ticket, key_session}
use politburo.System.{World, lifted, lifted_store}

-- the keys of tickets and of sessions
abbrev pub IsGuarded : String → Type 0
IsGuarded k = ((j : String) × (k ≡ key_login_ticket j)) ⊎ ((j : String) × (k ≡ key_session j))

module _ {W : Type 0} (store : Cache.Store W) (c : Contract store) where
  -- an entry is gone or as it was
  abbrev pub Fading : (t : Shape) → String → W → W → Type 0
  Fading t k w w' = (c.holds t k w' ≡ none) ⊎ (c.holds t k w' ≡ c.holds t k w)

  pub record Fades (v v' : World W) : Type 0 where
    pub same_log : v'.log ≡ v.log
    pub fading : (t : Shape) (k : String) → IsGuarded k → Fading t k v.state v'.state

  -- a call that leaves the cache as it is
  abbrev pub IsSteady : {A : Type 0} → (W → A × W) → Type 0
  IsSteady f = (t : Shape) (k : String) (w : W) → c.holds t k (f w).1 ≡ c.holds t k w

  pub Fades-refl : (v : World W) → Fades v v
  Fades-refl v = record { same_log = refl; fading = λ t k guarded. inr refl }

  Fading-trans :
      (t : Shape) (k : String) (w w' w'' : W)
      → Fading t k w w'
      → Fading t k w' w''
      → Fading t k w w''
  Fading-trans t k w w' w'' first (inl gone) = inl gone
  Fading-trans t k w w' w'' (inl gone) (inr kept) = inl (kept ∙ gone)
  Fading-trans t k w w' w'' (inr before) (inr kept) = inr (kept ∙ before)

  pub Fades-trans : (v v' v'' : World W) → Fades v v' → Fades v' v'' → Fades v v''
  Fades-trans v v' v'' f s = record {
    same_log = s.same_log ∙ f.same_log;
    fading = λ t k guarded.
        Fading-trans t k v.state v'.state v''.state (f.fading t k guarded) (s.fading t k guarded);
  }

  pub steady-Fades :
      {A : Type 0} (f : W → A × W) (v : World W) → IsSteady f → Fades v (lifted f v).1
  steady-Fades f v steady = record {
    same_log = refl;
    fading = λ t k guarded. inr (steady t k v.state);
  }

  pub get_json-Fades :
      (t : Shape) (k : String) (v : World W) → Fades v ((lifted_store store).get_json t k v).1
  get_json-Fades t k v = record {
    same_log = refl;
    fading = λ u j guarded. inr (c.get_keeps t u k j v.state);
  }

  -- a write under a key of another kind
  pub set_json-Fades :
      (t : Shape) (k : String) (x : El t) (ttl : ℕ) (v : World W)
      → ¬ IsGuarded k
      → Fades v ((lifted_store store).set_json t k x ttl v).1
  set_json-Fades t k x ttl v free = record {
    same_log = refl;
    fading =
        λ u j guarded. inr (c.set_ne t u k j x ttl v.state (λ e. free (subst IsGuarded e guarded)));
  }

  delete-Fading : (t : Shape) (k j : String) (w : W) → Fading t j w (store.delete k w).1
  delete-Fading t k j w = elim (Bool-cases (j == k)) [
    | inl same ↦
        let e : k ≡ j = sym ((eq_iff j k).0 same) in
        subst (λ j. Fading t j w (store.delete k w).1) e (c.delete_either t k w)
    | inr other ↦ inr (c.delete_ne t k j w (ground (arith, eq_iff j k)))
  ]

  pub delete-Fades : (k : String) (v : World W) → Fades v ((lifted_store store).delete k v).1
  delete-Fades k v = record { same_log = refl; fading = λ t j guarded. delete-Fading t k j v.state }

  pub get_del_json-Fading :
      (t u : Shape) (k j : String) (w : W) → Fading u j w (store.get_del_json t k w).1
  get_del_json-Fading t u k j w = elim (Bool-cases (j == k)) [
    | inl same ↦
        let e : k ≡ j = sym ((eq_iff j k).0 same) in
        subst (λ j. Fading u j w (store.get_del_json t k w).1) e (c.get_del_either t u k w)
    | inr other ↦ inr (c.get_del_ne t u k j w (ground (arith, eq_iff j k)))
  ]

  pub Forgets-Fades : (v : World W) (w : W) → Forgets c v.state w → Fades v (record v { state = w })
  Forgets-Fades v w f = record { same_log = refl; fading = λ t k guarded. f t k }
