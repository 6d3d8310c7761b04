-- ===== src/Recent.antt =====
-- The last items of a list: `if len(xs) > n { xs = xs[len(xs)-n:] }`, by which the histories of
-- flights and of sessions are bounded.
use politburo.Prelude.{
  ℕ, zero, suc, ◌+◌, ◌-◌, ◌≤◌, min, List, [], ◌∷◌, ◌++◌, ltb, length, drop, length-append,
  length-drop, All, All-drop, if◌then◌else◌, ◌≡◌, refl, ap, false, arith, Bool-cases, inl, inr,
}
use native.Mathlib.Nat.{suc-add, zero-add}

module _ {ℓ} {A : Type ℓ} where
  unfoldable pub keep_last : ℕ → List A → List A
  keep_last n xs = if ltb n (length xs) then drop (length xs - n) xs else xs

  drop-drop : (a b : ℕ) (xs : List A) → drop a (drop b xs) ≡ drop (b + a) xs
  drop-drop a zero xs = rw zero-add
  drop-drop zero (suc b) [] = rw suc-add
  drop-drop (suc a) (suc b) [] = rw suc-add
  drop-drop a (suc b) (x ∷ xs) = rw suc-add (drop-drop a b xs)

  drop-append : (a : ℕ) (xs ys : List A) → a ≤ length xs → drop a (xs ++ ys) ≡ drop a xs ++ ys
  drop-append zero xs ys h = refl
  drop-append (suc a) [] ys h = absurd (omega arith)
  drop-append (suc a) (x ∷ xs) ys h = drop-append a xs ys (omega arith)

  pub keep_last-drop : (n : ℕ) (xs : List A) → keep_last n xs ≡ drop (length xs - n) xs
  unfolding keep_last
  keep_last-drop n xs = elim (Bool-cases (ltb n (length xs))) [
    | inl long ↦ rw long
    | inr short ↦ rw short (ap (λ m. drop m xs) {x = 0} (ground arith))
  ]

  pub keep_last_of_length-le : (n : ℕ) (xs : List A) → length xs ≤ n → keep_last n xs ≡ xs
  unfolding keep_last
  keep_last_of_length-le n xs h = let e : ltb n (length xs) ≡ false = ground arith in rw e

  pub length-keep_last : (n : ℕ) (xs : List A) → length (keep_last n xs) ≡ min n (length xs)
  length-keep_last n xs = rw keep_last-drop (omega (arith, length-drop (length xs - n) xs))

  pub length-keep_last-le : (n : ℕ) (xs : List A) → length (keep_last n xs) ≤ n
  length-keep_last-le n xs = omega (arith, length-keep_last n xs)

  -- What was dropped once does not come back.
  pub keep_last-append :
      (n : ℕ) (xs ys : List A) → keep_last n (keep_last n xs ++ ys) ≡ keep_last n (xs ++ ys)
  keep_last-append n xs ys =
      rw
        (
          keep_last-drop n xs,
          keep_last-drop n (xs ++ ys),
          ← drop-append (length xs - n) xs ys (omega arith),
          keep_last-drop,
          drop-drop,
        )
        (ap (λ m. drop m (xs ++ ys))
          (omega (arith, length-append xs ys, length-drop (length xs - n) (xs ++ ys))))

  pub All-keep_last {κ} : (P : A → Type κ) (n : ℕ) (xs : List A) → All P xs → All P (keep_last n xs)
  All-keep_last P n xs h = rw keep_last-drop (All-drop P (length xs - n) xs h)
