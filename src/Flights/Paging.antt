-- ===== src/Flights/Paging.antt =====
-- What a page holds, and where the arithmetic of `Paginate` wraps around.
use politburo.Ints.Laws.{lt_int-true, lt_int-false, lt_int-ltb, add_int_lem}
use politburo.Prelude.{
  true, false, ℕ, zero, suc, ◌+◌, ◌-◌, ◌*◌, ◌≤◌, ◌<◌, ◌^◌, List, [], ◌∷◌, ◌++◌, length, take, drop,
  ◌≡◌, refl, sym, ap, ◌∙◌, arith, ltb, leb, Bool-cases, inl, inr, length-drop, if◌then◌else◌,
}
use politburo.Ints.{sub_int, mul_int, lt_int}
use native.Mathlib.Nat.{suc-add, zero-add, zero-mul}
use politburo.Flights.Page.{Page, page, panic, slice, paginate}

leb-false : (a b : ℕ) → b < a → leb a b ≡ false
leb-false a b h = ground arith

le-mul : (a b : ℕ) → 1 ≤ b → a ≤ a * b
le-mul a zero h = absurd (omega arith)
le-mul a (suc b) h = omega arith

earlier : (n len : ℕ) → (suc n - 1) * len ≡ n * len
earlier n len = ap (λ m. m * len) (omega arith)

past_end : (a : ℕ) → a < 2 ^ 63 → lt_int a (2 ^ 63 + 2) ≡ false
past_end a h = ground arith

leb-true : (a b : ℕ) → a ≤ b → leb a b ≡ true
leb-true a b h = ground arith

-- the start of a page, where the product does not wrap around
start_lem :
    (n len : ℕ)
    → 1 ≤ n
    → n < 2 ^ 63
    → (n - 1) * len < 2 ^ 63
    → mul_int (sub_int n 1) len ≡ (n - 1) * len
start_lem n len h k q = let e : sub_int n 1 ≡ n - 1 = omega arith in rw e (omega arith)

module _ {ℓ} {A : Type ℓ} where
  drop_of_length-le : (n : ℕ) (xs : List A) → length xs ≤ n → drop n xs ≡ []
  drop_of_length-le zero [] h = refl
  drop_of_length-le zero (x ∷ xs) h = absurd (omega arith)
  drop_of_length-le (suc n) [] h = refl
  drop_of_length-le (suc n) (x ∷ xs) h = drop_of_length-le n xs (omega arith)

  take_of_length-le :
      (n m : ℕ) (xs : List A) → length xs ≤ n → length xs ≤ m → take n xs ≡ take m xs
  take_of_length-le zero zero xs h k = refl
  take_of_length-le zero (suc m) [] h k = refl
  take_of_length-le (suc n) zero [] h k = refl
  take_of_length-le (suc n) (suc m) [] h k = refl
  take_of_length-le zero m (x ∷ xs) h k = absurd (omega arith)
  take_of_length-le (suc n) zero (x ∷ xs) h k = absurd (omega arith)
  take_of_length-le (suc n) (suc m) (x ∷ xs) h k =
      ap (◌∷◌ x) (take_of_length-le n m xs (omega arith) (omega arith))

  take_all : (n : ℕ) (xs : List A) → length xs ≤ n → take n xs ≡ xs
  take_all zero [] h = refl
  take_all zero (x ∷ xs) h = absurd (omega arith)
  take_all (suc n) [] h = refl
  take_all (suc n) (x ∷ xs) h = ap (◌∷◌ x) (take_all n xs (omega arith))

  take-nil : (n : ℕ) → take {A = A} n [] ≡ []
  take-nil zero = refl
  take-nil (suc n) = refl

  take-add : (n m : ℕ) (xs : List A) → take (n + m) xs ≡ take n xs ++ take m (drop n xs)
  take-add zero m xs = rw zero-add
  take-add (suc n) m [] = rw (suc-add, take-nil m)
  take-add (suc n) m (x ∷ xs) = rw suc-add (ap (◌∷◌ x) (take-add n m xs))

  -- with the start and the end in range, what `slice` is called with
  slice_lem :
      (items : List A) (start len : ℕ)
      → length items < 2 ^ 63
      → start + len < 2 ^ 63
      → start < length items
      → slice items start (if ltb (length items) (start + len) then length items else start + len)
        ≡ page (take len (drop start items))
  unfolding slice
  slice_lem items start len h q r = elim (Bool-cases (ltb (length items) (start + len))) [
    | inl past ↦
        rw (past, lt_int-false (length items) start (omega arith) h)
          (ap page (
            take_of_length-le _ _ (drop start items) (omega (arith, length-drop start items))
              (ground (arith, length-drop start items))))
    | inr within ↦
        rw (within, lt_int-false (start + len) start (omega arith) q)
          (ap (λ n. page (take n (drop start items))) (omega arith))
  ]

  -- The page `page_number` of the items holds the `page_length` items from place
  -- `(page_number - 1) * page_length` on, or those that are left, where that place and the end
  -- behind it are below 2 ^ 63.
  pub paginate-window :
      (items : List A) (page_number page_length : ℕ)
      → length items < 2 ^ 63
      → 1 ≤ page_number
      → page_number < 2 ^ 63
      → (page_number - 1) * page_length + page_length < 2 ^ 63
      → paginate items page_number page_length
        ≡ page (take page_length (drop ((page_number - 1) * page_length) items))
  unfolding paginate
  paginate-window items n len h p k q =
      let start = (n - 1) * len in
      elim (Bool-cases (ltb start (length items))) [
        | inl inside ↦
            rw
              (
                start_lem n len p k (omega arith),
                leb-false (2 ^ 63) start (omega arith),
                lt_int-true start (length items) (ground arith) h,
                add_int_lem start len q,
                lt_int-ltb (length items) (start + len) h q,
              )
              (slice_lem items start len h q (ground arith))
        | inr outside ↦
            rw
              (
                start_lem n len p k (omega arith),
                leb-false (2 ^ 63) start (omega arith),
                lt_int-false start (length items) (ground arith) (omega arith),
              )
              (ap page
                (sym (ap (take len) (drop_of_length-le start items (ground arith)) ∙ take-nil len)))
      ]

  -- the pages one after the other; a panic in one is a panic in all
  abbrev append_page : Page A → Page A → Page A
  append_page (page xs) (page ys) = page (xs ++ ys)
  append_page (page xs) panic = panic
  append_page panic p = panic

  pub first_pages : List A → ℕ → ℕ → Page A
  first_pages items len zero = page []
  first_pages items len (suc n) = append_page (first_pages items len n) (paginate items (suc n) len)

  -- The first `n` pages one after the other are the first `n * page_length` items, each once and in
  -- order, if that number is below 2 ^ 63.
  pub first_pages-take :
      (items : List A) (page_length n : ℕ)
      → length items < 2 ^ 63
      → 1 ≤ page_length
      → n * page_length < 2 ^ 63
      → first_pages items page_length n ≡ page (take (n * page_length) items)
  unfolding first_pages
  first_pages-take items len zero h p q = rw zero-mul
  first_pages-take items len (suc n) h p q =
      rw
        (
          first_pages-take items len n h p (omega arith),
          paginate-window items (suc n) len h (omega arith) (omega (arith, le-mul (suc n) len p))
              (omega (arith, earlier n len)),
        )
        (rw (earlier n len, ← take-add (n * len) len items)
          (ap (λ m. page (take m items)) (omega arith)))

  -- A page number and a page length that pass the handler's checks make `Paginate` panic on any list
  -- of more than three items: the start of the page wraps around to 3, and its end to a negative
  -- number.
  pub paginate-panic :
      (items : List A)
      → 3 < length items
      → length items < 2 ^ 63
      → paginate items (2 ^ 63 - 2) (2 ^ 63 - 1) ≡ panic
  unfolding paginate slice
  paginate-panic items h k = rw (lt_int-true 3 (length items) h k, past_end (length items) k)

  -- With other such arguments it returns the first page in place of an empty one.
  pub paginate_wraps :
      (items : List A)
      → 0 < length items
      → length items ≤ 2 ^ 32
      → paginate items (2 ^ 32 + 1) (2 ^ 32) ≡ page items
  unfolding paginate slice
  paginate_wraps items h k =
      rw
        (
          lt_int-true 0 (length items) h (omega arith),
          lt_int-ltb (length items) (2 ^ 32) (omega arith) (omega arith),
        )
        (elim (Bool-cases (ltb (length items) (2 ^ 32))) [
          | inl short ↦
              rw (short, lt_int-false (length items) 0 (omega arith) (omega arith))
                (ap page (take_all (length items - 0) items (omega arith)))
          | inr full ↦ rw full (ap page (take_all (2 ^ 32) items k))
        ])
