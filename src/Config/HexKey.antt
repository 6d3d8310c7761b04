-- ===== src/Config/HexKey.antt =====
-- A secret that is given by its hexadecimal digits.
use text.Mathlib.TextLemmas.{nil-append, cons-append}
use politburo.Prelude.{
  ℕ, zero, suc, ◌+◌, ◌*◌, ◌/◌, ◌%◌, ◌<◌, Char, code, String, Bool, true, false, some, [], ◌∷◌, ◌==◌,
  ◌&&◌, not, ltb, length, ◌≡◌, refl, arith, eq_iff, Bool-cases, inl, inr,
}
use politburo.Strings.{is_space, trim_left, trim_right, trim_space}
use politburo.Auth.Tickets.{Bytes, hex_digit, hex_digits, encode_hex}
use politburo.Config.{ok}
use politburo.Config.SecretKey.{bytes_of, nibble, decode_hex, secret_of, parse_signed_link_secret}

-- the digit of a number below sixteen
record IsGlyph (n : ℕ) : Type 0 where
  char : Char
  same : hex_digit n hex_digits ≡ String.◌∷◌ char ""
  solid : is_space char ≡ false
  short : ltb (code char) 0x80 ≡ true
  value : nibble (code char) ≡ some n

hex_digit-IsGlyph : (n : ℕ) → n < 16 → IsGlyph n
unfolding hex_digit nibble is_space
hex_digit-IsGlyph zero small = record {
  char = "0";
  same = refl;
  solid = refl;
  short = refl;
  value = refl;
}
hex_digit-IsGlyph (suc zero) small = record {
  char = "1";
  same = refl;
  solid = refl;
  short = refl;
  value = refl;
}
hex_digit-IsGlyph (suc (suc zero)) small = record {
  char = "2";
  same = refl;
  solid = refl;
  short = refl;
  value = refl;
}
hex_digit-IsGlyph (suc (suc (suc zero))) small = record {
  char = "3";
  same = refl;
  solid = refl;
  short = refl;
  value = refl;
}
hex_digit-IsGlyph (suc (suc (suc (suc zero)))) small = record {
  char = "4";
  same = refl;
  solid = refl;
  short = refl;
  value = refl;
}
hex_digit-IsGlyph (suc (suc (suc (suc (suc zero))))) small = record {
  char = "5";
  same = refl;
  solid = refl;
  short = refl;
  value = refl;
}
hex_digit-IsGlyph (suc (suc (suc (suc (suc (suc zero)))))) small = record {
  char = "6";
  same = refl;
  solid = refl;
  short = refl;
  value = refl;
}
hex_digit-IsGlyph (suc (suc (suc (suc (suc (suc (suc zero))))))) small = record {
  char = "7";
  same = refl;
  solid = refl;
  short = refl;
  value = refl;
}
hex_digit-IsGlyph (suc (suc (suc (suc (suc (suc (suc (suc zero)))))))) small = record {
  char = "8";
  same = refl;
  solid = refl;
  short = refl;
  value = refl;
}
hex_digit-IsGlyph (suc (suc (suc (suc (suc (suc (suc (suc (suc zero))))))))) small = record {
  char = "9";
  same = refl;
  solid = refl;
  short = refl;
  value = refl;
}
hex_digit-IsGlyph (suc (suc (suc (suc (suc (suc (suc (suc (suc (suc zero)))))))))) small = record {
  char = "a";
  same = refl;
  solid = refl;
  short = refl;
  value = refl;
}
hex_digit-IsGlyph (suc (suc (suc (suc (suc (suc (suc (suc (suc (suc (suc zero))))))))))) small =
    record { char = "b"; same = refl; solid = refl; short = refl; value = refl }
hex_digit-IsGlyph (suc (suc (suc (suc (suc (suc (suc (suc (suc (suc (suc (suc zero))))))))))))
      small =
    record { char = "c"; same = refl; solid = refl; short = refl; value = refl }
hex_digit-IsGlyph (suc (suc (suc (suc (suc (suc (suc (suc (suc (suc (suc (suc (suc zero)))))))))))))
      small =
    record { char = "d"; same = refl; solid = refl; short = refl; value = refl }
hex_digit-IsGlyph
      (suc (suc (suc (suc (suc (suc (suc (suc (suc (suc (suc (suc (suc (suc zero))))))))))))))
      small =
    record { char = "e"; same = refl; solid = refl; short = refl; value = refl }
hex_digit-IsGlyph
      (suc (suc (suc (suc (suc (suc (suc (suc (suc (suc (suc (suc (suc (suc (suc zero)))))))))))))))
      small =
    record { char = "f"; same = refl; solid = refl; short = refl; value = refl }
hex_digit-IsGlyph
      (suc
        (suc (suc (suc (suc (suc (suc (suc (suc (suc (suc (suc (suc (suc (suc (suc n))))))))))))))))
      small =
    absurd (omega arith)

-- a text without space
unfoldable is_solid : String → Bool
is_solid String.[] = true
is_solid (String.◌∷◌ c s) = not (is_space c) && is_solid s

trim_right_of_is_solid : (s : String) → is_solid s ≡ true → trim_right is_space s ≡ s
unfolding is_solid trim_right
trim_right_of_is_solid String.[] h = refl
trim_right_of_is_solid (String.◌∷◌ c s) h =
    let rest : trim_right is_space s ≡ s = trim_right_of_is_solid s (ground arith) in
    let solid : is_space c ≡ false = ground arith in ground (arith, rest, solid)

trim_space_of_is_solid : (s : String) → is_solid s ≡ true → trim_space s ≡ s
unfolding is_solid trim_space trim_left
trim_space_of_is_solid String.[] h = trim_right_of_is_solid "" refl
trim_space_of_is_solid (String.◌∷◌ c s) h =
    let solid : is_space c ≡ false = ground arith in
    rw solid (trim_right_of_is_solid (String.◌∷◌ c s) h)

abbrev pub AreBytes : Bytes → Type 0
AreBytes [] = Unit
AreBytes (b ∷ bs) = (b < 256) × AreBytes bs

-- what the digits of some bytes are
record IsSpelled (b : Bytes) : Type 0 where
  solid : is_solid (encode_hex b) ≡ true
  size : length (bytes_of (encode_hex b)) ≡ 2 * length b
  back : decode_hex (bytes_of (encode_hex b)) ≡ some b

encode_hex-cons :
    (n : ℕ) (b : Bytes) (high : IsGlyph (n / 16)) (low : IsGlyph (n % 16))
    → encode_hex (n ∷ b) ≡ String.◌∷◌ high.char (String.◌∷◌ low.char (encode_hex b))
unfolding encode_hex
encode_hex-cons n b high low =
    rw (high.same, low.same, cons-append, nil-append, cons-append, nil-append) refl

is_solid-cons :
    (n : ℕ) (d : IsGlyph n) (s : String) → is_solid s ≡ true → is_solid (String.◌∷◌ d.char s) ≡ true
unfolding is_solid
is_solid-cons n d s h = rw (d.solid, h) refl

bytes_of-cons :
    (n : ℕ) (d : IsGlyph n) (s : String) → bytes_of (String.◌∷◌ d.char s) ≡ code d.char ∷ bytes_of s
unfolding bytes_of
bytes_of-cons n d s = rw d.short refl

IsSpelled-cons :
    (n : ℕ) (b : Bytes) (high : IsGlyph (n / 16)) (low : IsGlyph (n % 16))
    → IsSpelled b
    → IsSpelled (n ∷ b)
unfolding decode_hex
IsSpelled-cons n b high low rest =
    let text = encode_hex-cons n b high low in
    let tail = String.◌∷◌ low.char (encode_hex b) in
    let bytes : bytes_of (encode_hex (n ∷ b))
        ≡ code high.char ∷ code low.char ∷ bytes_of (encode_hex b) =
      rw (text, bytes_of-cons (n / 16) high tail, bytes_of-cons (n % 16) low (encode_hex b)) refl in
    let value : n / 16 * 16 + n % 16 ≡ n = omega arith in
    record {
      solid =
          rw text (
            is_solid-cons (n / 16) high tail
              (is_solid-cons (n % 16) low (encode_hex b) rest.solid));
      size = rw (bytes, rest.size) (omega arith);
      back = rw (bytes, high.value, low.value, rest.back, value) refl;
    }

encode_hex-IsSpelled : (b : Bytes) → AreBytes b → IsSpelled b
unfolding encode_hex is_solid bytes_of decode_hex
encode_hex-IsSpelled [] h = record { solid = refl; size = refl; back = refl }
encode_hex-IsSpelled (n ∷ b) (small, h) =
    IsSpelled-cons n b (hex_digit-IsGlyph (n / 16) (omega arith))
      (hex_digit-IsGlyph (n % 16) (omega arith)) (encode_hex-IsSpelled b h)

given_of_long : (s : String) → length (bytes_of s) ≡ 64 → (s == "") ≡ false
unfolding bytes_of
given_of_long String.[] e = absurd (omega arith)
given_of_long (String.◌∷◌ c s) e = elim (Bool-cases (String.◌∷◌ c s == "")) [
  | inl blank ↦ let empty : String.◌∷◌ c s ≡ "" = ground (arith, eq_iff (String.◌∷◌ c s) "") in cc
  | inr given ↦ given
]

-- The digits of 32 bytes are taken for those bytes.
pub parse_signed_link_secret-encode_hex :
    (b : Bytes) (environment : String)
    → AreBytes b
    → length b ≡ 32
    → parse_signed_link_secret (encode_hex b) environment ≡ ok b
unfolding parse_signed_link_secret secret_of
parse_signed_link_secret-encode_hex b environment h size =
    let hex = encode_hex-IsSpelled b h in
    let trimmed : trim_space (encode_hex b) ≡ encode_hex b = trim_space_of_is_solid _ hex.solid in
    let long : length (bytes_of (encode_hex b)) ≡ 64 = rw (hex.size, size) refl in
    let given : (encode_hex b == "") ≡ false = given_of_long _ long in
    rw (trimmed, given, long, hex.back, size) refl
