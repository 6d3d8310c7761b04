-- ===== src/Flights/Upsert.antt =====
-- `UpsertFlights` against the snapshot and the new flights, flight by flight.
use politburo.Prelude.{
  ℕ, subst, length, String, Option, none, some, List, [], ◌∷◌, ◌==◌, if◌then◌else◌, map, Map, get,
  put, get-put, ◌≡◌, refl, ap, arith, eq_iff,
}
use mathlib.Core.Option
use politburo.Keyed.{place, note_place, or_first, find, find_last, store, store_all, IsDistinct}
use politburo.Keyed.Places.{Agrees, Agrees-nil, Agrees-store, place-store_of_Agrees}
use politburo.Keyed.Laws.{
  or_first-none, add_keys, IsDistinct-store_all, find-store_all, map-store_all,
}
use politburo.Flights.{Flight, flight, nil, fields, flight_id}
use politburo.Flights.Mapper.{merge_names, index_from, merged, upsert_from, upsert_flights}

flight_id-merged :
    (prior : Option Flight) (current : Flight)
    → flight_id (merged prior current) ≡ flight_id current
unfolding merge_names
flight_id-merged none (flight f h) = refl
flight_id-merged (some p) (flight f h) = refl

-- `index` holds the last flight of each id
pub get-index_from :
    (k : String) (existing : List Flight) (index : Map Flight)
    → get k (index_from index existing) ≡ or_first (find_last flight_id k existing) (get k index)
unfolding index_from find_last
get-index_from k [] index = refl
get-index_from k (f ∷ existing) index =
    ground (
      arith,
      get-index_from k existing (put (flight_id f) f index),
      get-put (flight_id f) k f index,
    )

-- what becomes of a new flight
merge_with : Map Flight → Flight → Flight
merge_with index current = merged (get (flight_id current) index) current

flight_id-merge_with :
    (index : Map Flight) (current : Flight)
    → flight_id (merge_with index current) ≡ flight_id current
unfolding merge_with
flight_id-merge_with index current = flight_id-merged (get (flight_id current) index) current

map-merge_with :
    (index : Map Flight) (mapped : List Flight)
    → map flight_id (map (merge_with index) mapped) ≡ map flight_id mapped
map-merge_with index [] = refl
map-merge_with index (f ∷ mapped) = rw (flight_id-merge_with, map-merge_with index mapped)

find_last-merge_with :
    (index : Map Flight) (k : String) (mapped : List Flight)
    → find_last flight_id k (map (merge_with index) mapped)
      ≡ Option.map (merged (get k index)) (find_last flight_id k mapped)
unfolding find_last merge_with
find_last-merge_with index k [] = refl
find_last-merge_with index k (f ∷ mapped) = ground (
  arith,
  find_last-merge_with index k mapped,
  flight_id-merge_with index f,
  eq_iff (flight_id f) k,
)

upsert_from-store_all :
    (index : Map Flight) (seen : Map ℕ) (result mapped : List Flight)
    → Agrees flight_id seen result
    → upsert_from index seen result mapped
      ≡ store_all flight_id result (map (merge_with index) mapped)
unfolding upsert_from store_all merge_with
upsert_from-store_all index seen result [] agrees = refl
upsert_from-store_all index seen result (current ∷ mapped) agrees =
    let here = merge_with index current in
    let id = flight_id-merge_with index current in
    let placed =
      subst (λ k. place (get k seen) here result ≡ store flight_id here result) id
        (place-store_of_Agrees flight_id seen here result agrees) in
    let noted =
      subst
        (λ k.
          Agrees flight_id (note_place (get k seen) k (length result) seen)
            (store flight_id here result))
        id (Agrees-store flight_id seen here result agrees) in
    rw placed (
      upsert_from-store_all index
        (note_place (get (flight_id current) seen) (flight_id current) (length result) seen)
        (store flight_id here result) mapped noted)

-- Every flight of `mapped` is stored over the flight with its id.
upsert_flights-store_all :
    (existing mapped : List Flight)
    → upsert_flights existing mapped
      ≡ store_all flight_id [] (map (merge_with (index_from [] existing)) mapped)
unfolding upsert_flights
upsert_flights-store_all existing mapped =
    upsert_from-store_all (index_from [] existing) [] [] mapped (Agrees-nil flight_id)

-- The ids of the result are distinct.
pub upsert_flights-IsDistinct :
    (existing mapped : List Flight) → IsDistinct flight_id (upsert_flights existing mapped)
upsert_flights-IsDistinct existing mapped =
    rw upsert_flights-store_all
      (IsDistinct-store_all flight_id (map (merge_with (index_from [] existing)) mapped) [] tt)

-- They are the ids of `mapped`, in the order in which each comes first.
pub map-upsert_flights :
    (existing mapped : List Flight)
    → map flight_id (upsert_flights existing mapped) ≡ add_keys [] (map flight_id mapped)
map-upsert_flights existing mapped =
    rw (upsert_flights-store_all, map-store_all)
      (ap (add_keys []) (map-merge_with (index_from [] existing) mapped))

-- A flight without its history, where a blank name of the aircraft or the livery is the one of an
-- earlier flight, if there is one.
abbrev pub updated : Option Flight → Flight → Flight
updated none (flight f h) = flight f nil
updated (some prior) (flight f h) =
    flight
      (record f {
        aircraft_name =
            if f.aircraft_name == "" then (fields prior).aircraft_name else f.aircraft_name;
        livery_name = if f.livery_name == "" then (fields prior).livery_name else f.livery_name;
      })
      nil

merged-updated : (prior : Option Flight) (f : Flight) → merged prior f ≡ updated prior f
unfolding merge_names
merged-updated none (flight f h) = refl
merged-updated (some p) (flight f h) = refl

map-updated : (prior o : Option Flight) → Option.map (merged prior) o ≡ Option.map (updated prior) o
map-updated prior none = refl
map-updated prior (some f) = ap some (merged-updated prior f)

-- An upsert holds for an id the last flight of `mapped` with that id, without its history, where a
-- blank name of the aircraft or the livery is the one of the last flight of `existing` with that
-- id, if there is one. It holds nothing for an id that no flight of `mapped` has.
pub find-upsert_flights :
    (existing mapped : List Flight) (k : String)
    → find flight_id k (upsert_flights existing mapped)
      ≡ Option.map (updated (find_last flight_id k existing)) (find_last flight_id k mapped)
find-upsert_flights existing mapped k =
    rw
      (
        ← map-updated (find_last flight_id k existing) (find_last flight_id k mapped),
        upsert_flights-store_all,
        find-store_all,
        find_last-merge_with,
        get-index_from,
      )
      (unfold find get in simp or_first-none)
