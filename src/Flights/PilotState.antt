-- ===== src/Flights/PilotState.antt =====
-- internal/game/flights/pilotstate.go
use politburo.Prelude.{String, Option, none, some, List, [], ◌∷◌, eqb, if◌then◌else◌, ◌==◌, ◌||◌}
use politburo.Ints.{Int64}

abbrev pub active : String
active = "active"

abbrev pub away_in_flight : String
away_in_flight = "away_in_flight"

abbrev pub away_parked : String
away_parked = "away_parked"

abbrev pub in_background : String
in_background = "in_background"

abbrev pub pilot_state_names : List String
pilot_state_names = active ∷ away_in_flight ∷ away_parked ∷ in_background ∷ []

unfoldable pub name_for_pilot_state : Int64 → String
name_for_pilot_state code =
    if eqb code 0
    then active
    else if eqb code 1
    then away_in_flight
    else if eqb code 2
    then away_parked
    else if eqb code 3
    then in_background
    else active

-- the second result of the source, `false`, is `none`
unfoldable pub parse_pilot_state_name : String → Option String
parse_pilot_state_name name =
    if name == active || name == away_in_flight || name == away_parked || name == in_background
    then some name
    else none
