-- ===== src/Flights/Histories.antt =====
-- `NextHistory` over the life of a flight.
use politburo.Prelude.{
  ◌≤◌, List, [], ◌∷◌, ◌++◌, map, foldl, length, ◌≡◌, ◌∙◌, sym, ap, append_assoc, append-nil, arith,
}
use politburo.Recent.{length-keep_last, keep_last_of_length-le, keep_last, keep_last-append}
use politburo.Flights.{Flight, max_history}
use politburo.Flights.Mapper.{historical, next_history}

-- From any history on, the flights that are appended one after the other leave the last 25 of all,
-- in order, the new ones with no history and no path sync of their own.
pub foldl-next_history :
    (priors existing : List Flight)
    → length existing ≤ max_history
    → foldl next_history existing priors ≡ keep_last max_history (existing ++ map historical priors)
unfolding next_history
foldl-next_history [] existing h =
    rw append-nil (sym (keep_last_of_length-le max_history existing h))
foldl-next_history (prior ∷ priors) existing h =
    foldl-next_history priors (next_history existing prior)
      (omega (arith, length-keep_last max_history (existing ++ historical prior ∷ [])))
    ∙ keep_last-append max_history (existing ++ historical prior ∷ []) (map historical priors)
    ∙ ap (keep_last max_history)
        (append_assoc existing (historical prior ∷ []) (map historical priors))
