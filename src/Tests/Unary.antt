-- ===== src/Tests/Unary.antt =====
-- A cipher that hides nothing, and an encoding of bytes in the letters `a` and `b`.
use politburo.Prelude.{
  ℕ, zero, suc, ◌+◌, code, eqb, String, true, some, [], ◌∷◌, if◌then◌else◌, ◌≡◌, refl, ap, ap₂,
  arith, ◌∙◌,
}
use politburo.Auth.Tickets.{Bytes, Cipher, IsCipher}

abbrev write_byte : ℕ → String → String
write_byte zero s = String.◌∷◌ "b" s
write_byte (suc n) s = String.◌∷◌ "a" (write_byte n s)

unfoldable pub write_bytes : Bytes → String
write_bytes [] = ""
write_bytes (n ∷ b) = write_byte n (write_bytes b)

unfoldable pub read_bytes : ℕ → String → Bytes
read_bytes n String.[] = []
read_bytes n (String.◌∷◌ c s) =
    let more = read_bytes (n + 1) s in
    let rest = read_bytes 0 s in if eqb (code c) 97 then more else n ∷ rest

read_bytes-write_byte :
    (n m : ℕ) (s : String) → read_bytes m (write_byte n s) ≡ (m + n) ∷ read_bytes 0 s
unfolding read_bytes
read_bytes-write_byte zero m s = ap (λ k. k ∷ read_bytes 0 s) (omega arith)
read_bytes-write_byte (suc n) m s =
    read_bytes-write_byte n (m + 1) s ∙ ap (λ k. k ∷ read_bytes 0 s) (omega arith)

read_bytes-write_bytes : (b : Bytes) → read_bytes 0 (write_bytes b) ≡ b
unfolding write_bytes read_bytes
read_bytes-write_bytes [] = refl
read_bytes-write_bytes (n ∷ b) =
    read_bytes-write_byte n 0 (write_bytes b) ∙ ap₂ ◌∷◌ (omega arith) (read_bytes-write_bytes b)

abbrev pub unary : Cipher
unary = record {
  accepts = λ secret. true;
  nonce_size = 1;
  seal = λ secret nonce text. text;
  unseal = λ secret nonce text. some text;
  encode = write_bytes;
  decode = λ s. some (read_bytes 0 s);
}

pub unary-IsCipher : IsCipher unary
unary-IsCipher = record {
  unseal-seal = λ secret nonce text size. refl;
  decode-encode = λ b. ap some (read_bytes-write_bytes b);
}
