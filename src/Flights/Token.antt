-- ===== src/Flights/Token.antt =====
-- internal/game/flights/token.go: the encrypted identity of a marker on the map. AES-GCM and base64
-- are the record `Cipher`, `encoding/json` of a token is the record `Json`, and `draw` is what
-- `io.ReadFull(rand.Reader, nonce)` reads, `none` for an error.
pub mod Laws
use politburo.Prelude.{
  String, Bool, Option, none, some, ◌==◌, ◌||◌, length, eqb, if◌then◌else◌, not, ◌≡◌,
}
use politburo.Auth.Tickets.{Bytes, Cipher, sealed_token, unsealed}

pub record MarkerToken : Type 0 where
  pub flight_id : String
  pub server_id : String

-- `json.Marshal` of a token, and `json.Unmarshal` into one
pub record Json : Type 0 where
  pub marshal : MarkerToken → Option Bytes
  pub unmarshal : Bytes → Option MarkerToken

-- what the package documents of a struct of two strings
pub record IsJson (j : Json) : Type 0 where
  pub unmarshal-marshal :
      (t : MarkerToken) (b : Bytes) → j.marshal t ≡ some b → j.unmarshal b ≡ some t

abbrev pub is_blank : MarkerToken → Bool
is_blank t = t.flight_id == "" || t.server_id == ""

module _ (g : Cipher) (j : Json) (secret : Bytes) where
  module _ {W : Type 0} (draw : W → Option Bytes × W) where
    abbrev pub with_nonce : Bytes → Option Bytes × W → Option String × W
    with_nonce payload (nonce, w) = (sealed_token g secret payload nonce, w)

    abbrev pub with_payload : Option Bytes → W → Option String × W
    with_payload none w = (none, w)
    with_payload (some payload) w =
        if g.accepts secret then with_nonce payload (draw w) else (none, w)

    -- `Encode`; an error of any kind is `none`
    unfoldable pub encode : MarkerToken → W → Option String × W
    encode t w =
        if not (eqb (length secret) 32)
        then (none, w)
        else if is_blank t
        then (none, w)
        else with_payload (j.marshal t) w

  abbrev pub checked : Option MarkerToken → Option MarkerToken
  checked none = none
  checked (some t) = if is_blank t then none else some t

  abbrev pub parsed : Option Bytes → Option MarkerToken
  parsed none = none
  parsed (some payload) = checked (j.unmarshal payload)

  -- `Decode`; `none` is `ErrInvalidFlightToken`
  unfoldable pub decode : String → Option MarkerToken
  decode raw =
      if not (eqb (length secret) 32) then none else parsed (unsealed g secret (g.decode raw))
