-- ===== src/Ints/Read.antt =====
-- What the digits of a number stand for, so that no two numbers have the same.
use Prim.Native.String.{String, [], ◌∷◌, ◌++◌}
use text.Mathlib.TextLemmas.{nil-append, cons-append}
use politburo.Prelude.{
  ℕ, zero, suc, ◌+◌, ◌-◌, ◌*◌, ◌/◌, ◌%◌, ◌<◌, ◌^◌, code, eqb, ltb, true, false, if◌then◌else◌, ◌≡◌,
  refl, ap, ◌∙◌, arith, Bool-cases, inl, inr,
}
use politburo.Ints.{digit_from, digit, digits, is_negative, format_int}

-- the number behind the last colon
unfoldable pub scan : ℕ → String → ℕ
scan n [] = n
scan n (c ∷ s) = scan (if eqb (code c) 58 then 0 else n * 10 + (code c - 48)) s

scan-append : (n : ℕ) (s t : String) → scan n (s ++ t) ≡ scan (scan n s) t
unfolding scan
scan-append n [] t = rw nil-append refl
scan-append n (c ∷ s) t =
    rw cons-append (scan-append (if eqb (code c) 58 then 0 else n * 10 + (code c - 48)) s t)

pub scan-colon : (n : ℕ) (s t : String) → scan n (s ++ (":" ++ t)) ≡ scan 0 t
unfolding scan
scan-colon n s t = scan-append n s (":" ++ t) ∙ scan-append (scan n s) ":" t

scan-digit : (n d : ℕ) → d < 10 → scan n (digit d) ≡ n * 10 + d
unfolding scan digit digit_from
scan-digit n zero h = refl
scan-digit n (suc zero) h = refl
scan-digit n (suc (suc zero)) h = refl
scan-digit n (suc (suc (suc zero))) h = refl
scan-digit n (suc (suc (suc (suc zero)))) h = refl
scan-digit n (suc (suc (suc (suc (suc zero))))) h = refl
scan-digit n (suc (suc (suc (suc (suc (suc zero)))))) h = refl
scan-digit n (suc (suc (suc (suc (suc (suc (suc zero))))))) h = refl
scan-digit n (suc (suc (suc (suc (suc (suc (suc (suc zero)))))))) h = refl
scan-digit n (suc (suc (suc (suc (suc (suc (suc (suc (suc zero))))))))) h = refl
scan-digit n (suc (suc (suc (suc (suc (suc (suc (suc (suc (suc d)))))))))) h = absurd (omega arith)

scan-digits : (fuel n : ℕ) → n < 10 ^ suc fuel → scan 0 (digits (suc fuel) n) ≡ n
unfolding digits
scan-digits zero n small =
    let low : ltb n 10 ≡ true = ground (arith, small) in
    rw low (scan-digit 0 n (omega arith) ∙ omega arith)
scan-digits (suc fuel) n small = elim (Bool-cases (ltb n 10)) [
  | inl low ↦ rw low (scan-digit 0 n (ground arith) ∙ omega arith)
  | inr high ↦
      let power : 10 ^ suc (suc fuel) ≡ 10 * 10 ^ suc fuel = omega arith in
      let rest = scan-digits fuel (n / 10) (omega (arith, power)) in
      rw high (
        scan-append 0 (digits (suc fuel) (n / 10)) (digit (n % 10))
        ∙ ap (λ m. scan m (digit (n % 10))) rest
        ∙ scan-digit (n / 10) (n % 10) (omega arith)
        ∙ omega arith)
]

pub scan-format_int : (n : ℕ) → n < 2 ^ 63 → scan 0 (format_int n) ≡ n
unfolding format_int
scan-format_int n small =
    let plain : is_negative n ≡ false = ground arith in rw plain (scan-digits 19 n (omega arith))
