-- ===== src/Cache/Contract.antt =====
-- What the cache promises: a finite map whose operations may fail, and whose entries may be
-- forgotten between two calls.
use politburo.Prelude.{String, true, Option, none, some, ◌≡◌, ◌≢◌, ◌⊎◌, inl, inr, refl, ℕ}
use politburo.Cache.{Shape, El, Reply, hit, miss, broken, Store}

-- `holds t k w` is what the entry under the key `k` decodes to at the type `t`, if there is one
-- that decodes.
pub record Contract {W : Type 0} (store : Store W) : Type 0 where
  pub holds : (t : Shape) → String → W → Option (El t)
  pub get_hit :
      (t : Shape) (k : String) (w : W) (v : El t)
      → (store.get_json t k w).0 ≡ hit v
      → holds t k w ≡ some v
  pub get_miss :
      (t : Shape) (k : String) (w : W) → (store.get_json t k w).0 ≡ miss → holds t k w ≡ none
  pub get_keeps :
      (t u : Shape) (k j : String) (w : W) → holds u j (store.get_json t k w).1 ≡ holds u j w
  pub set_ok :
      (t : Shape) (k : String) (v : El t) (ttl : ℕ) (w : W)
      → (store.set_json t k v ttl w).0 ≡ true
      → holds t k (store.set_json t k v ttl w).1 ≡ some v
  pub set_either :
      (t : Shape) (k : String) (v : El t) (ttl : ℕ) (w : W)
      → (holds t k (store.set_json t k v ttl w).1 ≡ holds t k w)
        ⊎ (holds t k (store.set_json t k v ttl w).1 ≡ some v)
  pub set_ne :
      (t u : Shape) (k j : String) (v : El t) (ttl : ℕ) (w : W)
      → j ≢ k
      → holds u j (store.set_json t k v ttl w).1 ≡ holds u j w
  pub delete_ok :
      (t : Shape) (k : String) (w : W)
      → (store.delete k w).0 ≡ true
      → holds t k (store.delete k w).1 ≡ none
  pub delete_either :
      (t : Shape) (k : String) (w : W)
      → (holds t k (store.delete k w).1 ≡ none) ⊎ (holds t k (store.delete k w).1 ≡ holds t k w)
  pub delete_ne :
      (t : Shape) (k j : String) (w : W) → j ≢ k → holds t j (store.delete k w).1 ≡ holds t j w
  pub get_del_hit :
      (t : Shape) (k : String) (w : W) (v : El t)
      → (store.get_del_json t k w).0 ≡ hit v
      → holds t k w ≡ some v
  pub get_del_gone :
      (t u : Shape) (k : String) (w : W) (v : El t)
      → (store.get_del_json t k w).0 ≡ hit v
      → holds u k (store.get_del_json t k w).1 ≡ none
  pub get_del_miss :
      (t : Shape) (k : String) (w : W) → (store.get_del_json t k w).0 ≡ miss → holds t k w ≡ none
  pub get_del_either :
      (t u : Shape) (k : String) (w : W)
      → (holds u k (store.get_del_json t k w).1 ≡ none)
        ⊎ (holds u k (store.get_del_json t k w).1 ≡ holds u k w)
  pub get_del_ne :
      (t u : Shape) (k j : String) (w : W)
      → j ≢ k
      → holds u j (store.get_del_json t k w).1 ≡ holds u j w

module _ {W : Type 0} {store : Store W} (c : Contract store) where
  -- Entries may expire from one state to the other, and none is written.
  abbrev pub Forgets : W → W → Type 0
  Forgets w w' =
      (t : Shape) (k : String) → (c.holds t k w' ≡ none) ⊎ (c.holds t k w' ≡ c.holds t k w)

  -- a read that does not fail finds what the entry holds
  pub get_cases :
      (t : Shape) (k : String) (w : W)
      → ((store.get_json t k w).0 ≡ broken)
        ⊎ ((v : El t) × ((store.get_json t k w).0 ≡ hit v) × (c.holds t k w ≡ some v))
        ⊎ (((store.get_json t k w).0 ≡ miss) × (c.holds t k w ≡ none))
  get_cases t k w = split (store.get_json t k w).0 refl
    where
      split :
          (r : Reply (El t))
          → (store.get_json t k w).0 ≡ r
          → ((store.get_json t k w).0 ≡ broken)
            ⊎ ((v : El t) × ((store.get_json t k w).0 ≡ hit v) × (c.holds t k w ≡ some v))
            ⊎ (((store.get_json t k w).0 ≡ miss) × (c.holds t k w ≡ none))
      split (hit v) e = inr (inl (v, e, c.get_hit t k w v e))
      split miss e = inr (inr (e, c.get_miss t k w e))
      split broken e = inl e

  -- so does a read that takes the entry out
  pub get_del_cases :
      (t : Shape) (k : String) (w : W)
      → ((store.get_del_json t k w).0 ≡ broken)
        ⊎ ((v : El t) × ((store.get_del_json t k w).0 ≡ hit v) × (c.holds t k w ≡ some v))
        ⊎ (((store.get_del_json t k w).0 ≡ miss) × (c.holds t k w ≡ none))
  get_del_cases t k w = split (store.get_del_json t k w).0 refl
    where
      split :
          (r : Reply (El t))
          → (store.get_del_json t k w).0 ≡ r
          → ((store.get_del_json t k w).0 ≡ broken)
            ⊎ ((v : El t) × ((store.get_del_json t k w).0 ≡ hit v) × (c.holds t k w ≡ some v))
            ⊎ (((store.get_del_json t k w).0 ≡ miss) × (c.holds t k w ≡ none))
      split (hit v) e = inr (inl (v, e, c.get_del_hit t k w v e))
      split miss e = inr (inr (e, c.get_del_miss t k w e))
      split broken e = inl e
