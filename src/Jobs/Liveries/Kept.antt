-- ===== src/Jobs/Liveries/Kept.antt =====
-- What the cache holds after a refresh of the liveries.
use politburo.Prelude.{
  String, true, Option, none, some, List, [], ◌∷◌, ◌==◌, if◌then◌else◌, ◌≡◌, ◌≢◌, refl, sym, ap,
  arith, Bool-cases, eq_iff, inl, inr,
}
use mathlib.Core.Option
use politburo.Keyed.{or_first, find_last}
use politburo.Upstream
use politburo.GameSessions.{Livery, cache_ttl}
use politburo.Cache.{Shape, Store}
use politburo.Cache.Contract.{Contract}
use politburo.Cache.Keys.{key_livery}
use politburo.Cache.Keys.Laws.{Entry, key_of, key_of-injective}
use politburo.Jobs.{done}
use politburo.Jobs.Liveries.{LiveriesClient, livery_of, set_livery, write_all, refresh, run}

abbrev pub livery_id : Upstream.Livery → String
livery_id item = item.id

entry_id : Entry → String
entry_id (Entry.livery k) = k
entry_id e = ""

key_livery-ne : (j k : String) → j ≢ k → key_livery j ≢ key_livery k
unfolding key_of entry_id
key_livery-ne j k h e = h (ap entry_id (key_of-injective (Entry.livery j) (Entry.livery k) e))

module _ {W : Type 0} (store : Store W) (c : Contract store) where
  abbrev pub held : String → W → Option Livery
  held k w = c.holds Shape.livery_shape (key_livery k) w

  held-set_livery :
      (k : String) (item : Upstream.Livery) (w : W)
      → (set_livery store item w).0 ≡ true
      → held k (set_livery store item w).1
        ≡ (if item.id == k then some (livery_of item) else held k w)
  held-set_livery k item w ok = elim (Bool-cases (item.id == k)) [
    | inl same ↦
        let e : item.id ≡ k = (eq_iff item.id k).0 same in
        rw (same, ← e)
          (c.set_ok Shape.livery_shape (key_livery item.id) (livery_of item) cache_ttl w ok)
    | inr other ↦
        let apart : k ≢ item.id = ground (arith, eq_iff item.id k) in
        rw other (
          c.set_ne Shape.livery_shape Shape.livery_shape (key_livery item.id) (key_livery k)
            (livery_of item) cache_ttl w (key_livery-ne k item.id apart))
  ]

  held-write_all :
      (k : String) (upstream : List Upstream.Livery) (w w' : W)
      → write_all store upstream w ≡ (done, w')
      → held k w' ≡ or_first (Option.map livery_of (find_last livery_id k upstream)) (held k w)
  unfolding write_all find_last
  held-write_all k [] w w' e = ap (held k) (sym (ap (λ p. p.1) e))
  held-write_all k (item ∷ upstream) w w' e = elim (Bool-cases (set_livery store item w).0) [
    | inl ok ↦
        let step : write_all store upstream (set_livery store item w).1 ≡ (done, w') = rw ok at e in
        ground (
          arith,
          held-write_all k upstream (set_livery store item w).1 w' step,
          held-set_livery k item w ok,
        )
    | inr failed ↦ cc
  ]

  held-refresh :
      (k : String) (fetched : Option (List Upstream.Livery) × W) (w' : W)
      → refresh store fetched ≡ (done, w')
      → (upstream : List Upstream.Livery) × (fetched.0 ≡ some upstream)
        × (held k w'
            ≡ or_first (Option.map livery_of (find_last livery_id k upstream)) (held k fetched.1))
  held-refresh k (none, w) w' e = cc
  held-refresh k (some upstream, w) w' e = (upstream, refl, held-write_all k upstream w w' e)

  -- A refresh of the liveries that ends without an error has fetched some, and the cache holds under
  -- every id the last livery that was fetched with it; it keeps the liveries of the other ids.
  pub held-run :
      (client : LiveriesClient W) (k : String) (w w' : W)
      → run store client w ≡ (done, w')
      → (upstream : List Upstream.Livery) × ((client w).0 ≡ some upstream)
        × (held k w'
            ≡ or_first
                (Option.map livery_of (find_last livery_id k upstream))
                (held k (client w).1))
  unfolding run
  held-run client k w w' e = held-refresh k (client w) w' e
