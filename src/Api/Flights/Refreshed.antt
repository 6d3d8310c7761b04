-- ===== src/Api/Flights/Refreshed.antt =====
-- From a flight that the API gave to the page of its marker.
use mathlib.Core.List.{Memᴰ}
use mathlib.Core.List.Memᴰ
use politburo.Prelude.{
  Char, String, Option, some, List, [], ◌∷◌, map, length, ◌≡◌, ◌⊎◌, inl, inr, ap, subst, ◌∙◌, sym,
  Bool-cases, eq_of_some, ℕ, Map,
}
use politburo.Strings.{trim_space}
use politburo.Keyed.{IsDistinct}
use politburo.Keyed.Laws.{has_key, add_key, add_keys}
use politburo.Upstream
use politburo.Upstream.{Time}
use politburo.GameSessions.{Livery}
use politburo.Auth.Tickets.{Bytes, Cipher, IsCipher}
use politburo.Flights.{Flight, flight_id, Snapshot}
use politburo.Flights.Mapper.{Numerics}
use politburo.Flights.Token.{Json, IsJson}
use politburo.Cache.{Store}
use politburo.Cache.Contract.{Contract}
use politburo.Jobs.Flights.{FlightsClient, refresh_session}
use politburo.Jobs.Flights.Stored.{upstream_id, refresh_session-Stored}
use politburo.Http
use politburo.Http.{Headers}
use politburo.Api.Flights.{Query, TrimmedFlight, Markers, markers_body}
use politburo.Api.Flights.Read.{held_in}
use politburo.Api.Flights.Trimmed.{trimmed_flight, get_trimmed_active_flights}
use politburo.Api.Flights.Detail.{get_active_flight}
use politburo.Api.Flights.Opened.{Opens, get_active_flight-marker}

map-Mem : (f : Flight) (l : List Flight) → Memᴰ f l → Memᴰ (flight_id f) (map flight_id l)
map-Mem f [] m = absurd (Memᴰ.not-nil m)
map-Mem f (x ∷ l) m = elim (Memᴰ.cases_cons m) [
  | inl same ↦ Memᴰ.head (ap flight_id same)
  | inr later ↦ Memᴰ.tail (map-Mem f l later)
]

add_key-Mem : (k j : String) (ks : List String) → Memᴰ k (add_key j ks) → Memᴰ k ks ⊎ (k ≡ j)
unfolding add_key
add_key-Mem k j ks m = elim (Bool-cases (has_key j ks)) [
  | inl known ↦ inl (rw known at m)
  | inr fresh ↦ elim (Memᴰ.append_cases ks (rw fresh at m)) [
    | inl before ↦ inl before
    | inr last ↦ elim (Memᴰ.cases_cons last) [
      | inl same ↦ inr same
      | inr none_left ↦ absurd (Memᴰ.not-nil none_left)
    ]
  ]
]

add_keys-Mem : (k : String) (ks js : List String) → Memᴰ k (add_keys ks js) → Memᴰ k ks ⊎ Memᴰ k js
unfolding add_keys
add_keys-Mem k ks [] m = inl m
add_keys-Mem k ks (j ∷ js) m = elim (add_keys-Mem k (add_key j ks) js m) [
  | inr later ↦ inr (Memᴰ.tail later)
  | inl here ↦ elim (add_key-Mem k j ks here) [
    | inl before ↦ inl before
    | inr same ↦ inr (Memᴰ.head same)
  ]
]

-- After a refresh of a server, and as long as the cache holds what it wrote, each marker of its map
-- stands for a flight whose id the API gave in that refresh, and its token opens the detail of that
-- flight; the only other answer is status 500, for an error of the cache.
pub refresh_session-marker :
    {W : Type 0} (store : Store W) (c : Contract store) (client : FlightsClient W) (go : Numerics)
    (now : Time) (session : Upstream.Session) (liveries liveries' : Map Livery) (w₀ w₁ : W) (n : ℕ)
    (g : Cipher) (law : IsCipher g) (j : Json) (json : IsJson j) (secret : Bytes)
    (draw : W → Option Bytes × W)
    (sizes : (w : W) (nonce : Bytes) → (draw w).0 ≡ some nonce → length nonce ≡ g.nonce_size)
    (lower : Char → Char) (h : Headers) (query : Query) (w w' : W) (d : Markers) (m : TrimmedFlight)
    (raw : String)
    → refresh_session store client go now session liveries w₀ ≡ (some n, liveries', w₁)
    → query.server_id ≡ session.normalized_name
    → held_in store c h query.server_id w ≡ held_in store c h query.server_id w₁
    → (get_trimmed_active_flights g j secret draw h store lower query w).0.body
      ≡ Http.Body.payload (markers_body d)
    → Memᴰ m d.result
    → held_in store c h query.server_id w' ≡ held_in store c h query.server_id w
    → trim_space raw ≡ m.flight_id
    → (upstream : List Upstream.Flight) × (f : Flight) × (s : Snapshot) × ((client session.id w₀).0
        ≡ some upstream)
      × Memᴰ (flight_id f) (map upstream_id upstream)
      × (s.last_cached ≡ now)
      × (m ≡ trimmed_flight m.flight_id f)
      × Opens g j secret store c h s f (get_active_flight h g j secret store raw w').0
refresh_session-marker store c client go now session liveries liveries' w₀ w₁ n g law j json secret
      draw sizes lower h query w w' d m raw refreshed server kept shown at kept' same =
    let (upstream, fetched, stored) =
      refresh_session-Stored store c client go now session liveries w₀ n liveries' w₁ refreshed in
    let written : Snapshot = record { result = stored.result; last_cached = now } in
    let holds : held_in store c h query.server_id w ≡ some written =
      kept ∙ (rw server stored.entry) in
    let is_written = λ (s : Snapshot) (e : held_in store c h query.server_id w ≡ some s).
      eq_of_some (sym holds ∙ e) in
    let (s, f, held, there, marks, opens) =
      get_active_flight-marker g j secret store c h law json draw sizes lower query w w' d m raw
        shown
        (λ s e.
          subst (λ (s : Snapshot). IsDistinct flight_id s.result) (is_written s e) stored.distinct)
        at kept' same in
    let same_snapshot : written ≡ s = eq_of_some (sym holds ∙ held) in
    let in_result : Memᴰ f stored.result =
      subst (λ (s : Snapshot). Memᴰ f s.result) (sym same_snapshot) there in
    let in_ids : Memᴰ (flight_id f) (add_keys [] (map upstream_id upstream)) =
      subst (Memᴰ (flight_id f)) stored.ids (map-Mem f stored.result in_result) in
    let given : Memᴰ (flight_id f) (map upstream_id upstream) =
      elim (add_keys-Mem (flight_id f) [] (map upstream_id upstream) in_ids) [
        | inl nowhere ↦ absurd (Memᴰ.not-nil nowhere)
        | inr given ↦ given
      ] in
    (
      upstream,
      f,
      s,
      fetched,
      given,
      ap (λ (s : Snapshot). s.last_cached) (sym same_snapshot),
      marks,
      opens,
    )
