-- ===== src/Api/Flights/Trimmed.antt =====
-- internal/transport/http/api/gameflights/handler.go: `GetTrimmedActiveFlights`.
use politburo.Prelude.{Char, String, Option, none, some, List, [], ◌∷◌, length}
use politburo.Auth.Tickets.{Bytes, Cipher}
use politburo.Flights.{Flight, fields, flight_id}
use politburo.Flights.Token.{MarkerToken, Json, encode}
use politburo.Cache.{Store}
use politburo.Http.{Headers, Response, write_json, write_error}
use politburo.Api.Flights.{
  Query, Loaded, TrimmedFlight, Body, markers_body, Loading, loaded, answered,
}
use politburo.Api.Flights.Load.{load_filtered}

abbrev pub token_of : String → Flight → MarkerToken
token_of server_id f = record { flight_id = flight_id f; server_id = server_id }

abbrev pub trimmed_flight : String → Flight → TrimmedFlight
trimmed_flight token f = record {
  flight_id = token;
  callsign = (fields f).callsign;
  latitude = (fields f).latitude;
  longitude = (fields f).longitude;
  heading = (fields f).heading;
}

abbrev pub prepended :
    {W : Type 0} → TrimmedFlight → Option (List TrimmedFlight) × W → Option (List TrimmedFlight) × W
prepended t (none, w) = (none, w)
prepended t (some ts, w) = (some (t ∷ ts), w)

module _ {W : Type 0} (g : Cipher) (j : Json) (secret : Bytes) (draw : W → Option Bytes × W) where
  -- one turn of the loop: an error ends it
  abbrev pub marked :
      Flight
      → (W → Option (List TrimmedFlight) × W)
      → Option String × W
      → Option (List TrimmedFlight) × W
  marked f rest (none, w) = (none, w)
  marked f rest (some token, w) = prepended (trimmed_flight token f) (rest w)

  -- the loop over the flights
  unfoldable pub mark : String → List Flight → W → Option (List TrimmedFlight) × W
  unfolding encode
  mark server_id [] w = (some [], w)
  mark server_id (f ∷ flights) w =
      let rest = mark server_id flights in
      marked f rest (encode g j secret draw (token_of server_id f) w)

  module _ (h : Headers) where
    abbrev pub with_marks : Loaded → Option (List TrimmedFlight) × W → Response Body × W
    with_marks l (none, w) =
        write_error h 500 "FLIGHT_TOKEN_FAILED" "failed to encode flight markers" w
    with_marks l (some trimmed, w) =
        write_json h 200
          (markers_body (record {
            available_filters = l.filters;
            result = trimmed;
            count = length trimmed;
            meta = l.meta;
          }))
          w

    abbrev pub with_loaded : Query → Loading W Loaded → Response Body × W
    with_loaded query (loaded l w) = with_marks l (mark query.server_id l.result w)
    with_loaded query (answered r) = r

    unfoldable pub get_trimmed_active_flights :
        Store W → (Char → Char) → Query → W → Response Body × W
    get_trimmed_active_flights store lower query w =
        with_loaded query (load_filtered store h lower query w)
