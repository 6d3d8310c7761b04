-- ===== src/Api/Flights/Detail.antt =====
-- internal/transport/http/api/gameflights/handler.go: `GetActiveFlight`, without its log line.
use politburo.Prelude.{String, Option, none, some}
use politburo.Strings.{trim_space}
use politburo.Auth.Tickets.{Bytes, Cipher}
use politburo.Flights.{Flight, flight_id, without_history, Snapshot}
use politburo.Flights.Token.{MarkerToken, Json, decode}
use politburo.Keyed.{find}
use politburo.Cache.{Store}
use politburo.Http.{Headers, Response, write_json, write_error}
use politburo.Api.Flights.{Body, detail_body, Loading, loaded, answered}
use politburo.Api.Flights.Load.{read_snapshot, meta_of}

module _ {W : Type 0} (h : Headers) where
  abbrev pub with_flight : Snapshot → Option Flight → W → Response Body × W
  with_flight s none w =
      write_error h 404 "FLIGHT_NOT_FOUND" "flight is not in the current snapshot" w
  with_flight s (some f) w =
      write_json h 200 (detail_body (record { result = without_history f; meta = meta_of s })) w

  abbrev pub with_snapshot : MarkerToken → Loading W Snapshot → Response Body × W
  with_snapshot t (loaded s w) = with_flight s (find flight_id t.flight_id s.result) w
  with_snapshot t (answered r) = r

  abbrev pub with_token : Store W → Option MarkerToken → W → Response Body × W
  with_token store none w = write_error h 400 "INVALID_FLIGHT_ID" "invalid flight id" w
  with_token store (some t) w = with_snapshot t (read_snapshot store h t.server_id w)

  unfoldable pub get_active_flight :
      Cipher → Json → Bytes → Store W → String → W → Response Body × W
  get_active_flight g j secret store raw w = with_token store (decode g j secret (trim_space raw)) w
