-- ===== src/Keyed/Laws.antt =====
-- What `store_all` keeps, for each key and in which order.
use politburo.Prelude.{
  Option, none, String, Bool, true, false, some, List, [], ◌∷◌, ◌++◌, ◌==◌, map, if◌then◌else◌, ◌≡◌,
  refl, ap, ◌∙◌, arith, eq_iff, Bool-cases, inl, inr, sym, ◌||◌,
}
use politburo.Keyed.{or_first, find, find_last, store, store_all, IsDistinct}

-- a key goes to the end if it is new
abbrev pub has_key : String → List String → Bool
has_key k [] = false
has_key k (j ∷ ks) = j == k || has_key k ks

unfoldable pub add_key : String → List String → List String
add_key k ks = if has_key k ks then ks else ks ++ k ∷ []

-- the keys in the order of their first occurrence
unfoldable pub add_keys : List String → List String → List String
add_keys ks [] = ks
add_keys ks (j ∷ js) = add_keys (add_key j ks) js

has_key-append :
    (k : String) (ks js : List String) → has_key k (ks ++ js) ≡ (has_key k ks || has_key k js)
has_key-append k [] js = refl
has_key-append k (j ∷ ks) js = ground (arith, has_key-append k ks js)

has_key-add_key :
    (k j : String) (ks : List String) → has_key k (add_key j ks) ≡ (has_key k ks || j == k)
unfolding add_key
has_key-add_key k j ks = elim (Bool-cases (has_key j ks)) [
  | inl known ↦ elim (Bool-cases (j == k)) [
    | inl same ↦
        let e : j ≡ k = (eq_iff j k).0 same in
        let known_k : has_key k ks ≡ true = rw e at known in rw (known, known_k) refl
    | inr other ↦ rw (known, other) (ground arith)
  ]
  | inr fresh ↦ rw (fresh, has_key-append k ks (j ∷ [])) (ground arith)
]

pub has_key-add_keys :
    (k : String) (ks js : List String) → has_key k (add_keys ks js) ≡ (has_key k ks || has_key k js)
unfolding add_keys
has_key-add_keys k ks [] = ground arith
has_key-add_keys k ks (j ∷ js) =
    ground (arith, has_key-add_keys k (add_key j ks) js, has_key-add_key k j ks)

pub or_first-none {ℓ} : {A : Type ℓ} (o : Option A) → or_first o none ≡ o
or_first-none none = refl
or_first-none (some x) = refl

module _ {ℓ} {A : Type ℓ} (key : A → String) where
  pub find-store :
      (k : String) (x : A) (ys : List A)
      → find key k (store key x ys) ≡ (if key x == k then some x else find key k ys)
  unfolding find store
  find-store k x [] = refl
  find-store k x (y ∷ ys) =
      ground (arith, eq_iff (key x) k, eq_iff (key y) k, eq_iff (key y) (key x), find-store k x ys)

  pub IsDistinct-store : (x : A) (ys : List A) → IsDistinct key ys → IsDistinct key (store key x ys)
  unfolding find store
  IsDistinct-store x [] h = ground arith
  IsDistinct-store x (y ∷ ys) h = ground (
    arith,
    eq_iff (key y) (key x),
    eq_iff (key x) (key y),
    find-store (key y) x ys,
    IsDistinct-store x ys h.1,
  )

  pub IsDistinct-store_all :
      (xs result : List A) → IsDistinct key result → IsDistinct key (store_all key result xs)
  unfolding store_all
  IsDistinct-store_all [] result h = h
  IsDistinct-store_all (x ∷ xs) result h =
      IsDistinct-store_all xs (store key x result) (IsDistinct-store x result h)

  pub find-store_all :
      (k : String) (xs result : List A)
      → find key k (store_all key result xs) ≡ or_first (find_last key k xs) (find key k result)
  unfolding store_all find_last
  find-store_all k [] result = refl
  find-store_all k (x ∷ xs) result =
      ground (arith, find-store_all k xs (store key x result), find-store k x result)

  pub has_key-find :
      (k : String) (xs : List A) → find key k xs ≡ none → has_key k (map key xs) ≡ false
  unfolding find
  has_key-find k [] h = refl
  has_key-find k (x ∷ xs) h = elim (Bool-cases (key x == k)) [
    | inl here ↦ let found : some x ≡ none = rw here at h in cc
    | inr other ↦ rw other (has_key-find k xs (rw other at h))
  ]

  map-store : (x : A) (ys : List A) → map key (store key x ys) ≡ add_key (key x) (map key ys)
  unfolding store add_key
  map-store x [] = refl
  map-store x (y ∷ ys) = elim (Bool-cases (key y == key x)) [
    | inl same ↦ rw same (ap (λ k. k ∷ map key ys) (sym ((eq_iff _ _).0 same)))
    | inr other ↦ rw (other, map-store x ys, add_key) (map-if (has_key (key x) (map key ys)))
  ]
    where
      map-if :
          (b : Bool)
          → key y ∷ (if b then map key ys else map key ys ++ key x ∷ [])
            ≡ (if b then key y ∷ map key ys else key y ∷ (map key ys ++ key x ∷ []))
      map-if true = refl
      map-if false = refl

  pub map-store_all :
      (xs result : List A)
      → map key (store_all key result xs) ≡ add_keys (map key result) (map key xs)
  unfolding store_all add_keys
  map-store_all [] result = refl
  map-store_all (x ∷ xs) result =
      map-store_all xs (store key x result)
      ∙ ap (λ ks. add_keys ks (map key xs)) (map-store x result)
