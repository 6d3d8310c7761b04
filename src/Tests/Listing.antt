-- ===== src/Tests/Listing.antt =====
-- The list of the live flights over the Redis in memory.
use politburo.Prelude.{true, none, some, [], ◌∷◌, ◌==◌, if◌then◌else◌, ◌≡◌, refl}
use politburo.Strings.{
  is_space, map_chars, to_lower, has_prefix, contains, trim_left, trim_right, trim_space,
}
use politburo.Http
use politburo.Http.{Response}
use politburo.Flights.PilotState.{parse_pilot_state_name}
use politburo.Flights.Filter.{username, contains_fold}
use politburo.Flights.Page.{slice, paginate}
use politburo.Cache.Keys.{key_active_flights}
use politburo.Cache.Redis.{State, get_json}
use politburo.Flights.{Flight}
use politburo.Api.{Data}
use politburo.Api.Flights.{Body, list_body, Query, Served, served, panicked}
use politburo.Api.Flights.Load.{select, passes, keep, read_snapshot, known_server, load_filtered}
use politburo.Api.Flights.Active.{get_active_flights}
use politburo.Api.Flights.Listed.{IsListed, get_active_flights-IsListed}
use politburo.GameSessions.{snapshot, nil, cons}
use politburo.Api.Sessions
use politburo.Api.Sessions.Shown.{IsShown, get_active_sessions-IsShown}
use politburo.Tests.Memory.{sessions_doc, flights_doc, Server, cache, cache-Contract, empty_cache}
use politburo.Tests.Samples.{training, sample, same_char}

-- a cache with the flights of one server
abbrev pub stocked : State Server
stocked = record empty_cache {
  server = λ k.
      if k == "game:flights:active:training_server"
      then some (
          flights_doc
            (record { result = sample "f1" "A320" ∷ sample "f2" "B738" ∷ []; last_cached = 5 }))
      else none;
}

abbrev pub query : Query
query = record {
  server_id = "training_server";
  pilot_states = "active" ∷ [];
  user_name = "";
  call_sign = "bird";
  page_number = 1;
  page_length = 1;
}

abbrev response_of : Served (State Server) → Response Body
response_of (served r) = r.0
response_of (panicked w) = record { status = 0; headers = []; body = Http.Body.empty }

abbrev state_of : Served (State Server) → State Server
state_of (served r) = r.1
state_of (panicked w) = w

abbrev answer : Served (State Server)
answer = get_active_flights cache [] same_char query stocked

abbrev none_shown : Data Flight Flight
none_shown = record {
  available_filters = [];
  result = [];
  history = none;
  meta = record { last_cached = 0; refresh_interval_mins = 0 };
  pagination = none;
}

abbrev payload_of : Http.Body Body → Data Flight Flight
payload_of (Http.Body.payload (list_body d)) = d
payload_of b = none_shown

was_served : answer ≡ served (response_of answer, state_of answer)
unfolding get_active_flights load_filtered select parse_pilot_state_name known_server get_json
    key_active_flights read_snapshot paginate keep passes contains_fold username slice to_lower
    map_chars contains has_prefix trim_space trim_left trim_right is_space
was_served = refl

has_payload :
    (response_of answer).body ≡ Http.Body.payload (list_body (payload_of (response_of answer).body))
unfolding get_active_flights load_filtered select parse_pilot_state_name known_server get_json
    key_active_flights read_snapshot paginate keep passes contains_fold username slice to_lower
    map_chars contains has_prefix trim_space trim_left trim_right is_space
has_payload = refl

get_active_flights-IsListed_example :
    IsListed cache cache-Contract same_char [] query stocked (payload_of (response_of answer).body)
get_active_flights-IsListed_example =
    get_active_flights-IsListed cache cache-Contract same_char [] query stocked (state_of answer)
      (response_of answer) (payload_of (response_of answer).body) was_served has_payload

-- a cache with a snapshot of the sessions, and one before it
abbrev past : State Server
past = record empty_cache {
  server = λ k.
      if k == "game:sessions:active"
      then some (sessions_doc (snapshot (training ∷ []) 9 (cons (snapshot [] 4 nil) nil)))
      else none;
}

abbrev shown : Sessions.Body
shown = Sessions.body_of (snapshot (training ∷ []) 9 (cons (snapshot [] 4 nil) nil)) true

sessions_payload :
    (Sessions.get_active_sessions cache [] (some true) past).0.body ≡ Http.Body.payload shown
unfolding Sessions.get_active_sessions get_json
sessions_payload = refl

get_active_sessions-IsShown_example : IsShown cache cache-Contract [] (some true) past shown
get_active_sessions-IsShown_example =
    get_active_sessions-IsShown cache cache-Contract [] (some true) past shown sessions_payload
