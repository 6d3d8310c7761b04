-- ===== src/Keyed/Places.antt =====
-- The loop over a map of places computes `store_all`.
use politburo.Prelude.{
  ℕ, zero, suc, String, Option, none, some, List, [], ◌∷◌, ◌==◌, Map, get, get-put, length,
  if◌then◌else◌, ◌≡◌, refl, arith, eq_iff,
}
use politburo.Keyed.{place, note_place, store}

module _ {ℓ} {A : Type ℓ} (key : A → String) where
  abbrev next_place : Option ℕ → Option ℕ
  next_place none = none
  next_place (some i) = some (suc i)

  -- the place of the first item with a key
  pub position : String → List A → Option ℕ
  position k [] = none
  position k (x ∷ xs) = if key x == k then some zero else next_place (position k xs)

  place-next :
      (p : Option ℕ) (x y : A) (ys : List A) → place (next_place p) x (y ∷ ys) ≡ y ∷ place p x ys
  place-next none x y ys = refl
  place-next (some i) x y ys = refl

  place-store : (x : A) (ys : List A) → place (position (key x) ys) x ys ≡ store key x ys
  unfolding position store
  place-store x [] = refl
  place-store x (y ∷ ys) = ground (arith, place-next (position (key x) ys) x y ys, place-store x ys)

  abbrev position_after : Option ℕ → ℕ → Option ℕ
  position_after none n = some n
  position_after (some i) n = some i

  position-store :
      (k : String) (x : A) (ys : List A)
      → position k (store key x ys)
        ≡ (if key x == k then position_after (position k ys) (length ys) else position k ys)
  unfolding position store
  position-store k x [] = ground (arith, eq_iff (key x) k)
  position-store k x (y ∷ ys) =
      ground
        (arith, eq_iff (key x) k, eq_iff (key y) k, eq_iff (key y) (key x), position-store k x ys)

  -- the map holds the place of every key
  abbrev pub Agrees : Map ℕ → List A → Type 0
  Agrees seen result = (k : String) → get k seen ≡ position k result

  pub Agrees-nil : Agrees [] []
  unfolding get position
  Agrees-nil k = refl

  -- one round of the loop
  pub place-store_of_Agrees :
      (seen : Map ℕ) (x : A) (result : List A)
      → Agrees seen result
      → place (get (key x) seen) x result ≡ store key x result
  place-store_of_Agrees seen x result agrees = ground (arith, agrees (key x), place-store x result)

  pub Agrees-store :
      (seen : Map ℕ) (x : A) (result : List A)
      → Agrees seen result
      → Agrees (note_place (get (key x) seen) (key x) (length result) seen) (store key x result)
  Agrees-store seen x result agrees k = ground (
    arith,
    agrees k,
    agrees (key x),
    position-store k x result,
    eq_iff (key x) k,
    get-put (key x) k (length result) seen,
  )
