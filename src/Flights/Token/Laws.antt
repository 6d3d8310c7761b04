-- ===== src/Flights/Token/Laws.antt =====
-- What the token of a marker says.
use politburo.Prelude.{
  String, true, false, Option, none, some, ◌==◌, ◌||◌, length, eqb, ◌≡◌, ◌≢◌, refl, ap, subst,
  arith, Bool-cases, inl, inr, eq_of_some, none≢some, eq_iff, ◌++◌,
}
use politburo.Auth.Tickets.{Bytes, Cipher, IsCipher, unsealed}
use politburo.Auth.Tickets.Laws.{unsealed-seal}
use politburo.Flights.Token.{
  MarkerToken, Json, IsJson, is_blank, with_nonce, with_payload, encode, checked, parsed, decode,
}

module _ (g : Cipher) (j : Json) (secret : Bytes) where
  -- the texts that decode to a token
  abbrev pub IsTokenOf : MarkerToken → Option String → Type 0
  IsTokenOf t none = Unit
  IsTokenOf t (some raw) = decode g j secret raw ≡ some t

  checked-some :
      (o : Option MarkerToken) (t : MarkerToken)
      → checked g j secret o ≡ some t
      → (t.flight_id ≢ "") × (t.server_id ≢ "")
  checked-some none t e = absurd (none≢some e)
  checked-some (some t') t e = elim (Bool-cases (is_blank t')) [
    | inl blank ↦ absurd (none≢some (rw blank at e))
    | inr whole ↦
        let same : t' ≡ t = eq_of_some (rw whole at e) in
        let named : (t'.flight_id == "") || (t'.server_id == "") ≡ false = whole in
        let f : t.flight_id ≢ "" = rw (← same) (ground (arith, eq_iff t'.flight_id "")) in
        let s : t.server_id ≢ "" = rw (← same) (ground (arith, eq_iff t'.server_id "")) in (f, s)
  ]

  parsed-some :
      (o : Option Bytes) (t : MarkerToken)
      → parsed g j secret o ≡ some t
      → (t.flight_id ≢ "") × (t.server_id ≢ "")
  parsed-some none t e = absurd (none≢some e)
  parsed-some (some b) t e = checked-some (j.unmarshal b) t e

  -- A token that decodes names a flight and a server.
  pub decode-some :
      (raw : String) (t : MarkerToken)
      → decode g j secret raw ≡ some t
      → (t.flight_id ≢ "") × (t.server_id ≢ "")
  unfolding decode
  decode-some raw t e = elim (Bool-cases (eqb (length secret) 32)) [
    | inl size ↦ parsed-some (unsealed g secret (g.decode raw)) t (rw size at e)
    | inr size ↦ absurd (none≢some (rw size at e))
  ]

  module _ (law : IsCipher g) (json : IsJson j) {W : Type 0} (draw : W → Option Bytes × W)
      (sizes : (w : W) (nonce : Bytes)
        → (draw w).0 ≡ some nonce
        → length nonce ≡ g.nonce_size) where
    with_nonce-IsTokenOf :
        (t : MarkerToken) (payload : Bytes) (p : Option Bytes × W)
        → ((nonce : Bytes) → p.0 ≡ some nonce → length nonce ≡ g.nonce_size)
        → g.accepts secret ≡ true
        → eqb (length secret) 32 ≡ true
        → is_blank t ≡ false
        → j.unmarshal payload ≡ some t
        → IsTokenOf t (with_nonce g j secret draw payload p).0
    unfolding decode
    with_nonce-IsTokenOf t payload (none, w) size accepted len whole back = tt
    with_nonce-IsTokenOf t payload (some nonce, w) size accepted len whole back =
        let opened : unsealed g secret (some (nonce ++ g.seal secret nonce payload))
            ≡ some payload =
          unsealed-seal g law secret payload nonce accepted (size nonce refl) in
        rw (decode, len, law.decode-encode, opened, back, whole) refl

    with_payload-IsTokenOf :
        (t : MarkerToken) (o : Option Bytes) (w : W)
        → eqb (length secret) 32 ≡ true
        → is_blank t ≡ false
        → j.marshal t ≡ o
        → IsTokenOf t (with_payload g j secret draw o w).0
    with_payload-IsTokenOf t none w len whole e = tt
    with_payload-IsTokenOf t (some payload) w len whole e = elim (Bool-cases (g.accepts secret)) [
      | inl accepted ↦ rw accepted (
          with_nonce-IsTokenOf t payload (draw w) (sizes w) accepted len whole
            (json.unmarshal-marshal t payload e))
      | inr refused ↦ rw refused tt
    ]

    encode-IsTokenOf : (t : MarkerToken) (w : W) → IsTokenOf t (encode g j secret draw t w).0
    unfolding encode
    encode-IsTokenOf t w = elim (Bool-cases (eqb (length secret) 32)) [
      | inl len ↦ rw len (elim (Bool-cases (is_blank t)) [
        | inl blank ↦ rw blank tt
        | inr whole ↦ rw whole (with_payload-IsTokenOf t (j.marshal t) w len whole refl)
      ])
      | inr len ↦ rw len tt
    ]

    -- A text that was encoded from a token decodes to that token.
    pub decode-encode :
        (t : MarkerToken) (w w' : W) (raw : String)
        → encode g j secret draw t w ≡ (some raw, w')
        → decode g j secret raw ≡ some t
    decode-encode t w w' raw e =
        subst (IsTokenOf t) (ap (λ (p : Option String × W). p.0) e) (encode-IsTokenOf t w)
