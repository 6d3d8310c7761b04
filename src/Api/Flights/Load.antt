-- ===== src/Api/Flights/Load.antt =====
-- internal/transport/http/api/gameflights/handler.go: `loadFiltered` and the reads of the
-- cache, without their log lines. `lower` is the mapping of `unicode.ToLower`.
use politburo.Prelude.{
  Char, String, Bool, true, false, Option, none, some, List, [], ◌∷◌, ◌++◌, ◌==◌, ◌&&◌, ◌||◌, not,
  eqb, if◌then◌else◌,
}
use politburo.Ints.{Int64}
use politburo.Strings.{trim_space}
use politburo.Flights.{Flight, fields, Snapshot, refresh_interval_minutes}
use politburo.Flights.PilotState.{pilot_state_names, parse_pilot_state_name}
use politburo.Flights.Filter.{username, contains_fold}
use politburo.Cache.{Shape, Reply, hit, miss, broken, Store}
use politburo.Cache.Keys.{key_session_names, key_active_flights}
use politburo.Http.{Headers, Response, write_error}
use politburo.Api.{Choice, Filter, Meta}
use politburo.Api.Flights.{Query, Loaded, Body, Loading, loaded, answered}

abbrev pub is_one_of : String → List String → Bool
is_one_of s [] = false
is_one_of s (name ∷ names) = name == s || is_one_of s names

-- what a name adds to `selected`
abbrev pub add_selected : Option String → List String → List String
add_selected none selected = selected
add_selected (some p) selected = if is_one_of p selected then selected else selected ++ p ∷ []

abbrev pub and_then : Option String → Option (List String) → Option (List String)
and_then none rest = none
and_then (some p) rest = rest

-- The loop over `query.PilotStates`. The keys of `seen` are the items of `selected`.
unfoldable pub select : List String → List String → Option (List String)
select selected [] = some selected
select selected (name ∷ names) =
    let parsed = parse_pilot_state_name name in
    let rest = select (add_selected parsed selected) names in and_then parsed rest

abbrev pub is_none : List String → Bool
is_none [] = true
is_none (s ∷ selected) = false

-- whether a flight stays in the result
unfoldable pub passes : (Char → Char) → List String → String → String → Flight → Bool
passes lower selected user_name call_sign f =
    (is_none selected || is_one_of (fields f).normalized.pilot_state selected)
    && contains_fold lower (username f) user_name
    && contains_fold lower (fields f).callsign call_sign

unfoldable pub keep : (Flight → Bool) → List Flight → List Flight
keep p [] = []
keep p (f ∷ flights) = let rest = keep p flights in if p f then f ∷ rest else rest

abbrev pub has_filter : List String → String → String → Bool
has_filter selected user_name call_sign =
    not (is_none selected) || not (user_name == "") || not (call_sign == "")

abbrev pub flight_filters : List String → String → String → List Filter
flight_filters selected user_name call_sign =
    record {
      name = "pilotState";
      type = "multi";
      desc = "Restrict results to one or more pilot states";
      current = Choice.several selected;
      default = Choice.several [];
      options = pilot_state_names;
    }
    ∷ record {
      name = "userName";
      type = "string";
      desc = "Restrict results to flights whose username contains this value";
      current = Choice.one user_name;
      default = Choice.one "";
      options = [];
    }
    ∷ record {
      name = "callSign";
      type = "string";
      desc = "Restrict results to flights whose callsign contains this value";
      current = Choice.one call_sign;
      default = Choice.one "";
      options = [];
    }
    ∷ []

abbrev pub meta_of : Snapshot → Meta
meta_of s = record { last_cached = s.last_cached; refresh_interval_mins = refresh_interval_minutes }

-- `loadFiltered` from the snapshot on
abbrev pub load_from : (Char → Char) → List String → String → String → Snapshot → Loaded
load_from lower selected user_name call_sign s = record {
  result =
      if has_filter selected user_name call_sign
      then keep (passes lower selected user_name call_sign) s.result
      else s.result;
  selected = selected;
  filters = flight_filters selected user_name call_sign;
  meta = meta_of s;
}

module _ {W : Type 0} (store : Store W) (h : Headers) where
  abbrev pub cache_unavailable : Int64 → W → Response Body × W
  cache_unavailable status w =
      write_error h status "ACTIVE_FLIGHTS_CACHE_UNAVAILABLE" "active flights cache is unavailable"
        w

  abbrev pub invalid_query : String → W → Response Body × W
  invalid_query message w = write_error h 400 "INVALID_QUERY_FILTER" message w

  abbrev pub snapshot_of : Reply Snapshot × W → Loading W Snapshot
  snapshot_of (hit s, w) =
      if eqb s.last_cached 0 then answered (cache_unavailable 500 w) else loaded s w
  snapshot_of (miss, w) = answered (cache_unavailable 503 w)
  snapshot_of (broken, w) = answered (cache_unavailable 500 w)

  unfoldable pub read_snapshot : String → W → Loading W Snapshot
  read_snapshot server_id w =
      snapshot_of (store.get_json Shape.flights_shape (key_active_flights server_id) w)

  -- the names of the sessions are only known once they are cached
  abbrev pub known_from : String → Reply (List String) × W → Loading W Unit
  known_from server_id (hit names, w) =
      if is_one_of server_id names
      then loaded tt w
      else answered (invalid_query "unknown serverId" w)
  known_from server_id (miss, w) = loaded tt w
  known_from server_id (broken, w) = answered (cache_unavailable 500 w)

  unfoldable pub known_server : String → W → Loading W Unit
  known_server server_id w =
      known_from server_id (store.get_json Shape.names_shape key_session_names w)

  module _ (lower : Char → Char) (query : Query) where
    abbrev pub with_snapshot : List String → Loading W Snapshot → Loading W Loaded
    with_snapshot selected (loaded s w) =
        loaded
          (load_from lower selected (trim_space query.user_name) (trim_space query.call_sign) s) w
    with_snapshot selected (answered r) = answered r

    abbrev pub with_server : List String → Loading W Unit → Loading W Loaded
    with_server selected (loaded u w) = with_snapshot selected (read_snapshot query.server_id w)
    with_server selected (answered r) = answered r

    abbrev pub with_selected : Option (List String) → W → Loading W Loaded
    with_selected none w = answered (invalid_query "invalid pilotState value" w)
    with_selected (some selected) w = with_server selected (known_server query.server_id w)

    unfoldable pub load_filtered : W → Loading W Loaded
    load_filtered w =
        if query.server_id == ""
        then answered (invalid_query "serverId is required" w)
        else with_selected (select [] query.pilot_states) w
