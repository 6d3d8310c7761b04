-- ===== src/Tests/Markers.antt =====
-- A map of the live flights over the Redis in memory, and a click on one of its markers.
use mathlib.Core.List.{Memᴰ}
use politburo.Prelude.{
  String, Option, none, some, [], ◌∷◌, ◌==◌, eqb, if◌then◌else◌, length, ◌≡◌, refl, Bool-cases, inl,
  inr, arith, eq_iff, eq_of_some, none≢some, subst, sym, ◌∙◌, ap, ap₂,
}
use politburo.Strings.{
  is_space, map_chars, to_lower, has_prefix, contains, trim_left, trim_right, trim_space,
}
use politburo.Auth.Tickets.{Bytes}
use politburo.Flights.PilotState.{parse_pilot_state_name}
use politburo.Flights.Filter.{username, contains_fold}
use politburo.Flights.Token.{MarkerToken, Json, IsJson, encode}
use politburo.Cache.{Shape, hit}
use politburo.Cache.Keys.{key_active_flights}
use politburo.Cache.Redis.{State, get_json}
use politburo.Http
use politburo.Keyed.{find, IsDistinct}
use politburo.Flights.{Flight, flight_id, Snapshot}
use politburo.Api.Flights.Read.{held_in}
use politburo.Api.Flights.Detail.{get_active_flight}
use politburo.Api.Flights.{TrimmedFlight, Body, Markers, markers_body}
use politburo.Api.Flights.Load.{select, passes, keep, read_snapshot, known_server, load_filtered}
use politburo.Api.Flights.Trimmed.{trimmed_flight, mark, get_trimmed_active_flights}
use politburo.Api.Flights.Marked.{IsMarked, get_trimmed_active_flights-IsMarked}
use politburo.Api.Flights.Opened.{Opens, get_active_flight-marker}
use politburo.Tests.Unary.{unary, unary-IsCipher, write_bytes}
use politburo.Tests.Memory.{Server, cache, cache-Contract}
use politburo.Tests.Samples.{sample, same_char}
use politburo.Tests.Listing.{stocked, query}

abbrev first_token : MarkerToken
first_token = record { flight_id = "f1"; server_id = "training_server" }

abbrev second_token : MarkerToken
second_token = record { flight_id = "f2"; server_id = "training_server" }

-- an encoding of two tokens, in one byte
abbrev read_token : Bytes → Option MarkerToken
read_token [] = none
read_token (n ∷ b) = if eqb n 1 then some first_token else some second_token

abbrev pub json : Json
json = record {
  marshal = λ t.
      if t.server_id == "training_server"
      then if t.flight_id == "f1"
        then some (1 ∷ [])
        else if t.flight_id == "f2"
        then some (2 ∷ [])
        else none
      else none;
  unmarshal = read_token;
}

named :
    (t : MarkerToken) (id : String)
    → t.flight_id ≡ id
    → t.server_id ≡ "training_server"
    → record { flight_id = id; server_id = "training_server" } ≡ t
named t id f s =
    let both : String → String → MarkerToken = λ f s. record { flight_id = f; server_id = s } in
    ap₂ both (sym f) (sym s)

unmarshal-marshal_lem :
    (t : MarkerToken) (b : Bytes) → json.marshal t ≡ some b → json.unmarshal b ≡ some t
unmarshal-marshal_lem t b e = elim (Bool-cases (t.server_id == "training_server")) [
  | inr other ↦ absurd (none≢some (rw other at e))
  | inl server ↦
      let s : t.server_id ≡ "training_server" =
        ground (arith, eq_iff t.server_id "training_server") in
      elim (Bool-cases (t.flight_id == "f1")) [
        | inl one ↦
            let f : t.flight_id ≡ "f1" = ground (arith, eq_iff t.flight_id "f1") in
            let same : 1 ∷ [] ≡ b = eq_of_some (rw (server, one) at e) in
            rw (← same) (ap some (named t "f1" f s))
        | inr no_one ↦ elim (Bool-cases (t.flight_id == "f2")) [
          | inl two ↦
              let f : t.flight_id ≡ "f2" = ground (arith, eq_iff t.flight_id "f2") in
              let same : 2 ∷ [] ≡ b = eq_of_some (rw (server, no_one, two) at e) in
              rw (← same) (ap some (named t "f2" f s))
          | inr no_two ↦ absurd (none≢some (rw (server, no_one, no_two) at e))
        ]
      ]
]

pub json-IsJson : IsJson json
json-IsJson = record { unmarshal-marshal = unmarshal-marshal_lem }

abbrev pub secret : Bytes
secret =
    1 ∷ 2 ∷ 3 ∷ 4 ∷ 5 ∷ 6 ∷ 7 ∷ 8 ∷ 1 ∷ 2 ∷ 3 ∷ 4 ∷ 5 ∷ 6 ∷ 7 ∷ 8 ∷ 1 ∷ 2 ∷ 3 ∷ 4 ∷ 5 ∷ 6 ∷ 7 ∷ 8
    ∷ 1 ∷ 2 ∷ 3 ∷ 4 ∷ 5 ∷ 6 ∷ 7 ∷ 8 ∷ []

abbrev pub draw : State Server → Option Bytes × State Server
draw w = (some (0 ∷ []), w)

pub draw-size : (w : State Server) (nonce : Bytes) → (draw w).0 ≡ some nonce → length nonce ≡ 1
draw-size w nonce e = let same : 0 ∷ [] ≡ nonce = eq_of_some e in rw (← same) refl

encoded : encode unary json secret draw first_token stocked ≡ (some "bab", stocked)
unfolding encode write_bytes
encoded = refl

abbrev pub markers_of : Http.Body Body → Markers
markers_of (Http.Body.payload (markers_body d)) = d
markers_of b = record {
  available_filters = [];
  result = [];
  count = 0;
  meta = record { last_cached = 0; refresh_interval_mins = 0 };
}

abbrev answer : Http.Body Body
answer = (get_trimmed_active_flights unary json secret draw [] cache same_char query stocked).0.body

has_markers : answer ≡ Http.Body.payload (markers_body (markers_of answer))
unfolding get_trimmed_active_flights load_filtered select parse_pilot_state_name known_server
    get_json read_snapshot key_active_flights mark keep passes contains_fold trim_space trim_right
    trim_left is_space contains username encode has_prefix map_chars to_lower write_bytes
has_markers = refl

get_trimmed_active_flights-IsMarked_example :
    IsMarked unary json secret cache cache-Contract same_char [] query stocked (markers_of answer)
get_trimmed_active_flights-IsMarked_example =
    get_trimmed_active_flights-IsMarked unary json secret cache cache-Contract same_char [] query
      unary-IsCipher json-IsJson draw draw-size stocked (markers_of answer) has_markers

abbrev marker : TrimmedFlight
marker = trimmed_flight "bab" (sample "f1" "A320")

has_marker : Memᴰ marker (markers_of answer).result
unfolding get_trimmed_active_flights load_filtered select parse_pilot_state_name known_server
    get_json read_snapshot key_active_flights mark keep passes contains_fold trim_space trim_right
    trim_left is_space contains username encode has_prefix map_chars to_lower write_bytes
has_marker = Memᴰ.head refl

abbrev in_cache : Snapshot
in_cache = record { result = sample "f1" "A320" ∷ sample "f2" "B738" ∷ []; last_cached = 5 }

in_cache-IsDistinct : IsDistinct flight_id in_cache.result
unfolding find
in_cache-IsDistinct = (refl, (refl, tt))

was_read :
    (cache.get_json Shape.flights_shape (key_active_flights "training_server") stocked).0
    ≡ hit in_cache
unfolding key_active_flights get_json
was_read = refl

held_snapshot : held_in cache cache-Contract [] "training_server" stocked ≡ some in_cache
held_snapshot =
    cache-Contract.get_hit Shape.flights_shape (key_active_flights "training_server") stocked
      in_cache was_read

distinct :
    (s : Snapshot)
    → held_in cache cache-Contract [] "training_server" stocked ≡ some s
    → IsDistinct flight_id s.result
distinct s e =
    subst (λ (v : Snapshot). IsDistinct flight_id v.result) (eq_of_some (sym held_snapshot ∙ e))
      in_cache-IsDistinct

pub trimmed_text : trim_space " bab" ≡ "bab"
unfolding trim_space trim_left trim_right is_space
trimmed_text = refl

get_active_flight-marker_example :
    (s : Snapshot) × (f : Flight) × (held_in cache cache-Contract [] "training_server" stocked
      ≡ some s)
    × Memᴰ f s.result
    × (marker ≡ trimmed_flight "bab" f)
    × Opens unary json secret cache cache-Contract [] s f
        (get_active_flight [] unary json secret cache " bab" stocked).0
get_active_flight-marker_example =
    get_active_flight-marker unary json secret cache cache-Contract [] unary-IsCipher json-IsJson
      draw draw-size same_char query stocked stocked (markers_of answer) marker " bab" has_markers
      distinct has_marker refl trimmed_text
