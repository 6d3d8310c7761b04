-- ===== src/Ints/Laws.antt =====
-- Comparison and addition where nothing wraps around.
use Prim.Native.String.{◌++◌}
use politburo.Prelude.{
  if◌then◌else◌, ◌%◌, ◌-◌, ap, refl, Bool-cases, inl, inr, zero, suc, ◌*◌, ◌/◌, ltb, ◌≤◌, ℕ, ◌+◌,
  ◌≤◌, ◌<◌, ◌^◌, true, false, ◌≡◌, arith, ltb,
}
use politburo.Ints.{digit, format_int, is_negative, digits, add_int, lt_int}

pub lt_int-true : (a b : ℕ) → a < b → b < 2 ^ 63 → lt_int a b ≡ true
lt_int-true a b h k = ground arith

pub lt_int-false : (a b : ℕ) → b ≤ a → a < 2 ^ 63 → lt_int a b ≡ false
lt_int-false a b h k = ground arith

pub lt_int-ltb : (a b : ℕ) → a < 2 ^ 63 → b < 2 ^ 63 → lt_int a b ≡ ltb a b
lt_int-ltb a b h k = ground arith

pub add_int_lem : (a b : ℕ) → a + b < 2 ^ 63 → add_int a b ≡ a + b
add_int_lem a b h = omega arith

digits-bound :
    (fuel more n : ℕ) → fuel ≤ more → n < 10 ^ suc fuel → digits (suc fuel) n ≡ digits (suc more) n
unfolding digits
digits-bound zero more n h small = let low : ltb n 10 ≡ true = ground (arith, small) in rw low refl
digits-bound (suc fuel) zero n h small = absurd (omega arith)
digits-bound (suc fuel) (suc more) n h small =
    let power : 10 ^ suc (suc fuel) ≡ 10 * 10 ^ suc fuel = omega arith in
    let rest = digits-bound fuel more (n / 10) (omega arith) (omega (arith, power)) in
    ap (λ s. if ltb n 10 then digit n else s ++ digit (n % 10)) rest

-- Twenty digits are enough for every number of 64 bits: a larger bound on their number changes no
-- format.
pub format_int-bound :
    (a more : ℕ)
    → a < 2 ^ 64
    → 20 ≤ more
    → format_int a ≡ (if is_negative a then "-" ++ digits more (2 ^ 64 - a) else digits more a)
unfolding format_int
format_int-bound a zero small h = absurd (omega arith)
format_int-bound a (suc more) small h =
    let high = digits-bound 19 more (2 ^ 64 - a) (omega arith) (omega arith) in
    let low = digits-bound 19 more a (omega arith) (omega arith) in
    elim (Bool-cases (is_negative a)) [
      | inl neg ↦ rw neg (ap (λ s. "-" ++ s) high)
      | inr pos ↦ rw pos low
    ]
