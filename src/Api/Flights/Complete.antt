-- ===== src/Api/Flights/Complete.antt =====
-- When every flight gets its marker.
use mathlib.Core.List.{Memᴰ}
use politburo.Prelude.{
  String, true, false, Option, some, List, [], ◌∷◌, ◌++◌, length, eqb, eqb_iff, ◌≡◌, ◌≢◌, refl, ap,
  subst, arith, eq_iff,
}
use politburo.Auth.Tickets.{Bytes, Cipher, IsCipher}
use politburo.Flights.{Flight, flight_id}
use politburo.Flights.Token.{MarkerToken, Json, IsJson, is_blank, encode}
use politburo.Config.{Config, ok}
use politburo.Config.Env.{System}
use politburo.Config.Load.{load}
use politburo.Config.Valid.{load-IsValid}
use politburo.Api.Flights.{TrimmedFlight}
use politburo.Api.Flights.Marked.{AreMarks, AreMarksOf, mark-AreMarks}
use politburo.Api.Flights.Trimmed.{token_of, trimmed_flight, mark}

module _ {W : Type 0} (g : Cipher) (j : Json) (secret : Bytes) (draw : W → Option Bytes × W)
    (accepted : g.accepts secret ≡ true) (size : length secret ≡ 32)
    (drawn : (w : W) → (nonce : Bytes) × (w' : W) × (draw w ≡ (some nonce, w'))) where
  encode-some :
      (t : MarkerToken) (w : W)
      → t.flight_id ≢ ""
      → t.server_id ≢ ""
      → (b : Bytes) × (j.marshal t ≡ some b)
      → (raw : String) × (w' : W) × (encode g j secret draw t w ≡ (some raw, w'))
  unfolding encode
  encode-some t w flight server (b, marshals) =
      let long : eqb (length secret) 32 ≡ true = ground (arith, eqb_iff (length secret) 32) in
      let whole : is_blank t ≡ false =
        ground (arith, eq_iff t.flight_id "", eq_iff t.server_id "") in
      let (nonce, w', draws) = drawn w in
      (
        g.encode (nonce ++ g.seal secret nonce b),
        w',
        rw (long, whole, marshals, accepted, draws) refl,
      )

  mark-some :
      (server_id : String) (fs : List Flight) (w : W)
      → server_id ≢ ""
      → ((f : Flight) → Memᴰ f fs → flight_id f ≢ "")
      → ((f : Flight) → Memᴰ f fs → (b : Bytes) × (j.marshal (token_of server_id f) ≡ some b))
      → (ms : List TrimmedFlight) × (w' : W) × (mark g j secret draw server_id fs w ≡ (some ms, w'))
  unfolding mark
  mark-some server_id [] w server named written = ([], w, refl)
  mark-some server_id (f ∷ fs) w server named written =
      let (raw, w1, one) =
        encode-some (token_of server_id f) w (named f (Memᴰ.head refl)) server
          (written f (Memᴰ.head refl)) in
      let (ms, w2, rest) =
        mark-some server_id fs w1 server (λ f' m. named f' (Memᴰ.tail m))
          (λ f' m. written f' (Memᴰ.tail m)) in
      (trimmed_flight raw f ∷ ms, w2, rw (one, rest) refl)

-- With the secret of a configuration that was loaded, a cipher that takes it, and a source of
-- randomness and an encoding of its tokens that do not fail, every flight of a server gets its marker, in their order, if no id is
-- blank: its id decodes to the flight and the server, and it has the place of the flight.
pub load-mark :
    (sys : System) (cfg : Config) {W : Type 0} (g : Cipher) (law : IsCipher g) (j : Json)
    (json : IsJson j) (draw : W → Option Bytes × W)
    (sizes : (w : W) (nonce : Bytes) → (draw w).0 ≡ some nonce → length nonce ≡ g.nonce_size)
    (accepts : (secret : Bytes) → length secret ≡ 32 → g.accepts secret ≡ true)
    (drawn : (w : W) → (nonce : Bytes) × (w' : W) × (draw w ≡ (some nonce, w')))
    (server_id : String) (fs : List Flight) (w : W)
    → load sys ≡ ok cfg
    → server_id ≢ ""
    → ((f : Flight) → Memᴰ f fs → flight_id f ≢ "")
    → ((f : Flight) → Memᴰ f fs → (b : Bytes) × (j.marshal (token_of server_id f) ≡ some b))
    → (ms : List TrimmedFlight) × (w' : W) × (mark g j cfg.auth.signed_link_secret draw server_id fs
          w
        ≡ (some ms, w'))
      × AreMarks g j cfg.auth.signed_link_secret server_id fs ms
load-mark sys cfg {W = W} g law j json draw sizes accepts drawn server_id fs w e server named
      written =
    let secret = cfg.auth.signed_link_secret in
    let size : length secret ≡ 32 = (load-IsValid sys cfg e).secret in
    let (ms, w', made) =
      mark-some g j secret draw (accepts secret size) size drawn server_id fs w server named
        written in
    (
      ms,
      w',
      made,
      subst (AreMarksOf g j secret server_id fs)
          (ap (λ (p : Option (List TrimmedFlight) × W). p.0) made)
          (mark-AreMarks g j secret law json draw sizes server_id fs w),
    )
