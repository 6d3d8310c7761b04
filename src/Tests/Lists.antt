-- ===== src/Tests/Lists.antt =====
-- Flights, sessions and pages at concrete inputs.

use politburo.Prelude.{ℕ, true, List, [], ◌∷◌, map, take, ◌-◌, ◌*◌, ◌^◌, ◌≡◌, ◌↔◌, arith}
use mathlib.Core.Option
use politburo.Keyed.{find, find_last}
use politburo.Keyed.Laws.{add_key, add_keys}
use politburo.Strings.{trim_space, to_lower}
use politburo.Strings.Laws.{Occurs}
use politburo.Flights.{Flight, flight_id}
use politburo.Flights.Filter.{contains_fold}
use politburo.Flights.Page.{page, panic, paginate}
use politburo.Flights.Mapper.{upsert_flights}
use politburo.Flights.Upsert.{updated, map-upsert_flights, find-upsert_flights}
use politburo.Flights.Paging.{first_pages, first_pages-take, paginate-panic}
use politburo.Flights.Matching.{contains_fold_iff}
use politburo.Tests.Samples.{sample, same_char}

abbrev earlier : List Flight
earlier = sample "f1" "A320" ∷ sample "f2" "B738" ∷ []

abbrev later : List Flight
later = sample "f2" "" ∷ sample "f3" "C172" ∷ sample "f2" "" ∷ []

find-upsert_flights_example :
    find flight_id "f2" (upsert_flights earlier later)
    ≡ Option.map (updated (find_last flight_id "f2" earlier)) (find_last flight_id "f2" later)
find-upsert_flights_example = find-upsert_flights earlier later "f2"

five : List ℕ
five = 1 ∷ 2 ∷ 3 ∷ 4 ∷ 5 ∷ []

first_pages-take_example : first_pages five 2 2 ≡ page (take (2 * 2) five)
unfolding five
first_pages-take_example = first_pages-take five 2 2 (omega arith) (omega arith) (omega arith)

paginate-panic_example : paginate five (2 ^ 63 - 2) (2 ^ 63 - 1) ≡ panic
unfolding five
paginate-panic_example = paginate-panic five (omega arith) (omega arith)

contains_fold_iff_example :
    (contains_fold same_char "speedbird" " bird " ≡ true)
    ↔ Occurs (to_lower same_char (trim_space " bird ")) (to_lower same_char "speedbird")
contains_fold_iff_example = contains_fold_iff same_char "speedbird" " bird "

-- the flights that are gone are not kept
later_ids : map (λ f. flight_id f) (upsert_flights earlier later) ≡ "f2" ∷ "f3" ∷ []
unfolding add_key add_keys
later_ids = map-upsert_flights earlier later
