-- ===== src/Auth/Tickets.antt =====
-- internal/auth/ticket.go. What `crypto/rand` returns is an argument of the operations, `none` for an
-- error; AES-GCM and base64 are the record `Cipher`.
pub mod Laws
use Prim.Native.String
use politburo.Prelude.{
  ℕ, zero, suc, ◌/◌, ◌%◌, String, Bool, true, false, Option, none, some, List, [], ◌∷◌, ◌++◌, ltb,
  length, take, drop, ◌≡◌, if◌then◌else◌,
}
use politburo.Auth.{LoginTicket, ticket_ttl}
use politburo.Cache.{Shape, Reply, hit, miss, broken, Store}
use politburo.Cache.Keys.{key_login_ticket}

abbrev pub Bytes : Type 0
Bytes = List ℕ

-- `accepts secret` says that `aes.NewCipher` and `cipher.NewGCM` take the secret. `seal` and `unseal`
-- are `Seal` without the prefix and `Open`, by secret, nonce and text; `encode` and `decode` are
-- `base64.RawURLEncoding`.
pub record Cipher : Type 0 where
  pub accepts : Bytes → Bool
  pub nonce_size : ℕ
  pub seal : Bytes → Bytes → Bytes → Bytes
  pub unseal : Bytes → Bytes → Bytes → Option Bytes
  pub encode : Bytes → String
  pub decode : String → Option Bytes

-- what the two packages document
pub record IsCipher (g : Cipher) : Type 0 where
  pub unseal-seal :
      (secret nonce text : Bytes)
      → length nonce ≡ g.nonce_size
      → g.unseal secret nonce (g.seal secret nonce text) ≡ some text
  pub decode-encode : (b : Bytes) → g.decode (g.encode b) ≡ some b

unfoldable pub hex_digit : ℕ → List String → String
hex_digit n [] = ""
hex_digit zero (d ∷ ds) = d
hex_digit (suc n) (d ∷ ds) = hex_digit n ds

abbrev pub hex_digits : List String
hex_digits =
    "0" ∷ "1" ∷ "2" ∷ "3" ∷ "4" ∷ "5" ∷ "6" ∷ "7" ∷ "8" ∷ "9" ∷ "a" ∷ "b" ∷ "c" ∷ "d" ∷ "e" ∷ "f"
    ∷ []

-- `hex.EncodeToString`
unfoldable pub encode_hex : Bytes → String
unfolding hex_digit
encode_hex [] = ""
encode_hex (b ∷ bs) =
    String.◌++◌ (hex_digit (b / 16) hex_digits)
      (String.◌++◌ (hex_digit (b % 16) hex_digits) (encode_hex bs))

module _ (g : Cipher) where
  abbrev pub sealed_token : Bytes → Bytes → Option Bytes → Option String
  sealed_token secret ticket_id none = none
  sealed_token secret ticket_id (some nonce) =
      some (g.encode (nonce ++ g.seal secret nonce ticket_id))

  -- `nonce` is what `io.ReadFull` reads, `nonce_size` bytes
  unfoldable pub encrypt_ticket_id : Bytes → Bytes → Option Bytes → Option String
  encrypt_ticket_id secret ticket_id nonce =
      if g.accepts secret then sealed_token secret ticket_id nonce else none

  abbrev pub unsealed : Bytes → Option Bytes → Option Bytes
  unsealed secret none = none
  unsealed secret (some raw) =
      if g.accepts secret
      then if ltb (length raw) g.nonce_size
        then none
        else g.unseal secret (take g.nonce_size raw) (drop g.nonce_size raw)
      else none

  -- an error of any kind is `none`; the caller does not tell them apart
  unfoldable pub decrypt_ticket_id : Bytes → String → Option Bytes
  decrypt_ticket_id secret token = unsealed secret (g.decode token)

  module _ {W : Type 0} (store : Store W) where
    abbrev pub issued : String → Bool × W → Option String × W
    issued token (true, w) = (some token, w)
    issued token (false, w) = (none, w)

    abbrev pub cached : Bytes → LoginTicket → Option String → W → Option String × W
    cached ticket_id ticket none w = (none, w)
    cached ticket_id ticket (some token) w = issued token (
        store.set_json Shape.ticket_shape (key_login_ticket (encode_hex ticket_id)) ticket
          ticket_ttl w)

    -- `Issue`: `none` is an error
    unfoldable pub issue : Bytes → Option Bytes → Option Bytes → LoginTicket → W → Option String × W
    unfolding encrypt_ticket_id
    issue secret none _ ticket w = (none, w)
    issue secret (some ticket_id) drawn ticket w =
        cached ticket_id ticket (encrypt_ticket_id secret ticket_id drawn) w

-- The results of `Consume`: the ticket, `ErrInvalidTicket`, or an error of the cache.
pub data Consumed : Type 0 where
  consumed : LoginTicket → Consumed
  invalid : Consumed
  unavailable : Consumed

module _ (g : Cipher) {W : Type 0} (store : Store W) where
  abbrev pub of_reply : Reply LoginTicket × W → Consumed × W
  of_reply (hit ticket, w) = (consumed ticket, w)
  of_reply (miss, w) = (invalid, w)
  of_reply (broken, w) = (unavailable, w)

  abbrev pub take_ticket : Option Bytes → W → Consumed × W
  take_ticket none w = (invalid, w)
  take_ticket (some ticket_id) w =
      of_reply (store.get_del_json Shape.ticket_shape (key_login_ticket (encode_hex ticket_id)) w)

  -- `Consume`
  unfoldable pub consume : Bytes → String → W → Consumed × W
  consume secret token w = take_ticket (decrypt_ticket_id g secret token) w
