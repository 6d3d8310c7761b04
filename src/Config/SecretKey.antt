-- ===== src/Config/SecretKey.antt =====
-- internal/config/config.go: `parseSignedLinkSecret`.
use politburo.Prelude.{
  ℕ, ◌+◌, ◌-◌, ◌*◌, ◌/◌, ◌%◌, code, String, Option, none, some, [], ◌∷◌, ◌++◌, ◌==◌, not, leb, ltb,
  length, eqb, if◌then◌else◌, ◌&&◌,
}
use politburo.Strings.{trim_space}
use politburo.Auth.Tickets.{Bytes}
use politburo.Config.{ConfigError, Result, ok, err}

-- the UTF-8 bytes of a character
abbrev pub utf8_char : ℕ → Bytes
utf8_char n =
    if ltb n 0x80
    then n ∷ []
    else if ltb n 0x800
    then (0xc0 + n / 64) ∷ (0x80 + n % 64) ∷ []
    else if ltb n 0x10000
    then (0xe0 + n / 4096) ∷ (0x80 + n / 64 % 64) ∷ (0x80 + n % 64) ∷ []
    else (0xf0 + n / 262144) ∷ (0x80 + n / 4096 % 64) ∷ (0x80 + n / 64 % 64) ∷ (0x80 + n % 64) ∷ []

-- `[]byte(raw)`
unfoldable pub bytes_of : String → Bytes
bytes_of String.[] = []
bytes_of (String.◌∷◌ c s) = utf8_char (code c) ++ bytes_of s

-- the value of a hexadecimal digit
unfoldable pub nibble : ℕ → Option ℕ
nibble n =
    if leb 48 n && leb n 57
    then some (n - 48)
    else if leb 97 n && leb n 102
    then some (n - 87)
    else if leb 65 n && leb n 70
    then some (n - 55)
    else none

abbrev pub add_byte : Option ℕ → Option ℕ → Option Bytes → Option Bytes
add_byte (some a) (some b) (some rest) = some ((a * 16 + b) ∷ rest)
add_byte a b rest = none

-- `hex.DecodeString`
unfoldable pub decode_hex : Bytes → Option Bytes
unfolding nibble
decode_hex [] = some []
decode_hex (a ∷ []) = none
decode_hex (a ∷ b ∷ rest) = add_byte (nibble a) (nibble b) (decode_hex rest)

abbrev pub local_signed_link_secret_hex : String
local_signed_link_secret_hex = "0123456789abcdef0123456789abcdef0123456789abcdef0123456789abcdef"

abbrev pub with_decoded : Option Bytes → Result Bytes
with_decoded none = err ConfigError.invalid_secret
with_decoded (some decoded) =
    if not (eqb (length decoded) 32) then err ConfigError.invalid_secret else ok decoded

-- from the test of the length on
unfoldable pub secret_of : Bytes → Result Bytes
unfolding decode_hex
secret_of raw =
    if eqb (length raw) 64
    then with_decoded (decode_hex raw)
    else if eqb (length raw) 32
    then ok raw
    else err ConfigError.invalid_secret

unfoldable pub parse_signed_link_secret : String → String → Result Bytes
unfolding secret_of bytes_of
parse_signed_link_secret raw environment =
    if trim_space raw == ""
    then if not (environment == "local")
      then err ConfigError.secret_required
      else secret_of (bytes_of local_signed_link_secret_hex)
    else secret_of (bytes_of (trim_space raw))
