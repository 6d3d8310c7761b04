-- ===== src/Keyed.antt =====
-- Lists whose items have a text for a key. Two loops of the program keep the last item of each key
-- at the place of the first, by a map from keys to places (`place`, `note_place`); here is the
-- plain description of what such a loop computes.
pub mod Places
pub mod Laws
use politburo.Prelude.{
  ℕ, suc, String, Option, none, some, List, [], ◌∷◌, ◌++◌, ◌==◌, Map, put, set, if◌then◌else◌, ◌≡◌,
}

module _ {ℓ} {A : Type ℓ} where
  -- `result[i] = item` if the key has a place, else `result = append(result, item)`
  abbrev pub place : Option ℕ → A → List A → List A
  place none item result = result ++ item ∷ []
  place (some i) item result = set result i item

  abbrev pub or_first : Option A → Option A → Option A
  or_first none first = first
  or_first (some x) first = some x

abbrev pub note_place : Option ℕ → String → ℕ → Map ℕ → Map ℕ
note_place none k n seen = put k n seen
note_place (some i) k n seen = seen

module _ {ℓ} {A : Type ℓ} (key : A → String) where
  -- the first item with a key
  unfoldable pub find : String → List A → Option A
  find k [] = none
  find k (x ∷ xs) = if key x == k then some x else find k xs

  -- the last item with a key
  unfoldable pub find_last : String → List A → Option A
  find_last k [] = none
  find_last k (x ∷ xs) = or_first (find_last k xs) (if key x == k then some x else none)

  -- an item replaces the one with its key, or goes to the end
  unfoldable pub store : A → List A → List A
  store x [] = x ∷ []
  store x (y ∷ ys) = if key y == key x then x ∷ ys else y ∷ store x ys

  unfoldable pub store_all : List A → List A → List A
  store_all result [] = result
  store_all result (x ∷ xs) = store_all (store x result) xs

  -- no key stands twice
  abbrev pub IsDistinct : List A → Type ℓ
  IsDistinct [] = Unit
  IsDistinct (x ∷ xs) = (find (key x) xs ≡ none) × IsDistinct xs
