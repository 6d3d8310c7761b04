-- ===== src/Ints.antt =====
-- Go's `int` and `int64` on a 64-bit platform. A value is its two's complement bit pattern, a
-- number below 2 ^ 64, and the operations wrap around.
pub mod Laws
pub mod Read
use politburo.Prelude.{
  ℕ, zero, suc, ◌+◌, ◌-◌, ◌*◌, ◌/◌, ◌%◌, ◌^◌, String, Bool, List, [], ◌∷◌, leb, ltb, if◌then◌else◌,
}
use Prim.Native.String.{◌++◌}

abbrev pub Int64 : Type 0
Int64 = ℕ

abbrev pub add_int : Int64 → Int64 → Int64
add_int a b = (a + b) % 2 ^ 64

abbrev pub sub_int : Int64 → Int64 → Int64
sub_int a b = (a + 2 ^ 64 - b) % 2 ^ 64

abbrev pub mul_int : Int64 → Int64 → Int64
mul_int a b = (a * b) % 2 ^ 64

abbrev pub is_negative : Int64 → Bool
is_negative a = leb (2 ^ 63) a

-- the signed order
abbrev pub lt_int : Int64 → Int64 → Bool
lt_int a b = ltb ((a + 2 ^ 63) % 2 ^ 64) ((b + 2 ^ 63) % 2 ^ 64)

unfoldable pub digit_from : ℕ → List String → String
digit_from n [] = ""
digit_from zero (d ∷ ds) = d
digit_from (suc n) (d ∷ ds) = digit_from n ds

unfoldable pub digit : ℕ → String
unfolding digit_from
digit n = digit_from n ("0" ∷ "1" ∷ "2" ∷ "3" ∷ "4" ∷ "5" ∷ "6" ∷ "7" ∷ "8" ∷ "9" ∷ [])

-- twenty digits are enough for a number below 2 ^ 64
unfoldable pub digits : ℕ → ℕ → String
unfolding digit
digits zero n = ""
digits (suc fuel) n =
    let more = digits fuel (n / 10) ++ digit (n % 10) in if ltb n 10 then digit n else more

-- the verb `%d`
unfoldable pub format_int : Int64 → String
unfolding digits
format_int a = if is_negative a then "-" ++ digits 20 (2 ^ 64 - a) else digits 20 a
