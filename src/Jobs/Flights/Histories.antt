-- ===== src/Jobs/Flights/Histories.antt =====
-- What the loop over the histories writes.
use politburo.Prelude.{
  String, true, false, Option, none, some, List, [], ◌∷◌, ◌==◌, if◌then◌else◌, map, Map, get, ◌++◌,
  ◌-◌, drop, length, ap, ◌≡◌, ◌≢◌, ◌⊎◌, inl, inr, refl, sym, subst, ◌∙◌, arith, eq_iff, Bool-cases,
}
use politburo.Keyed.{find, IsDistinct}
use politburo.Keyed.Laws.{has_key, has_key-find}
use politburo.Recent.{keep_last-drop}
use politburo.Flights.{
  flight, nil, Flight, flight_id, history, to_list, HistorySnapshot, game_active_flight_ttl,
}
use politburo.Flights.Mapper.{next_history}
use politburo.Cache.{Shape, Store, broken}
use politburo.Cache.Contract.{Contract, get_cases}
use politburo.Cache.Keys.{key_flight_history}
use politburo.Jobs.Flights.{history_of, cache_history, cache_histories}
use politburo.Jobs.Flights.Kept.{key_flight_history-ne}

-- A flight as a history keeps it: without its own history and its path.
abbrev pub past_flight : Flight → Flight
past_flight (flight f h) = flight (record f { path_sync = none }) nil

-- a history with one more flight, cut to the last 25
abbrev pub grown : List Flight → Flight → List Flight
grown l prior = drop (length (l ++ past_flight prior ∷ []) - 25) (l ++ past_flight prior ∷ [])

next_history-grown : (l : List Flight) (prior : Flight) → next_history l prior ≡ grown l prior
unfolding next_history
next_history-grown l (flight f h) = keep_last-drop 25 _

module _ {W : Type 0} (store : Store W) (c : Contract store) where
  -- the history that the cache holds for a flight
  abbrev pub history_at : String → W → Option HistorySnapshot
  history_at k w = c.holds Shape.history_shape (key_flight_history k) w

  -- a write of a history, or a read, that failed in some state
  abbrev pub WriteFails : String → Type 0
  WriteFails k =
      (h : HistorySnapshot) × (w : W) × ((store.set_json Shape.history_shape (key_flight_history k)
          h game_active_flight_ttl w).0
        ≡ false)

  abbrev pub ReadFails : String → Type 0
  ReadFails k = (w : W) × ((store.get_json Shape.history_shape (key_flight_history k) w).0 ≡ broken)

  -- The history of a flight that was in the snapshot before as `prior`: the last 25 of the history
  -- before and of `prior`. Without a history in the cache, or where it cannot be read, it starts
  -- from the one that `prior` carries; where the write fails it stays as it was.
  pub data Extended (k : String) (prior : Flight) (w w' : W) : Type 0 where
    extends :
        (s : HistorySnapshot)
        → history_at k w ≡ some s
        → history_at k w' ≡ some (record { result = grown s.result prior })
        → Extended k prior w w'
    starts :
        (history_at k w ≡ none) ⊎ ReadFails k
        → history_at k w' ≡ some (record { result = grown (to_list (history prior)) prior })
        → Extended k prior w w'
    fails : WriteFails k → history_at k w' ≡ history_at k w → Extended k prior w w'

  -- without such a `prior` the history stays as it is
  abbrev pub Recorded : String → Option Flight → W → W → Type 0
  Recorded k none w w' = history_at k w' ≡ history_at k w
  Recorded k (some prior) w w' = Extended k prior w w'

  pub Recorded-before :
      (k : String) (o : Option Flight) (w v w' : W)
      → history_at k v ≡ history_at k w
      → Recorded k o v w'
      → Recorded k o w w'
  Recorded-before k none w v w' same r = r ∙ same
  Recorded-before k (some prior) w v w' same (extends s held now) = extends s (sym same ∙ held) now
  Recorded-before k (some prior) w v w' same (starts (inl gone) now) =
      starts (inl (sym same ∙ gone)) now
  Recorded-before k (some prior) w v w' same (starts (inr failed) now) = starts (inr failed) now
  Recorded-before k (some prior) w v w' same (fails f now) = fails f (now ∙ same)

  pub Recorded-after :
      (k : String) (o : Option Flight) (w v w' : W)
      → history_at k w' ≡ history_at k v
      → Recorded k o w v
      → Recorded k o w w'
  Recorded-after k none w v w' same r = same ∙ r
  Recorded-after k (some prior) w v w' same (extends s held now) = extends s held (same ∙ now)
  Recorded-after k (some prior) w v w' same (starts why now) = starts why (same ∙ now)
  Recorded-after k (some prior) w v w' same (fails f now) = fails f (same ∙ now)

  -- the write of a history that was read as `h`
  written :
      (k : String) (prior : Flight) (h : List Flight) (w v : W)
      → history_at k v ≡ history_at k w
      → ((s : HistorySnapshot) × (history_at k w ≡ some s) × (h ≡ s.result))
        ⊎ (((history_at k w ≡ none) ⊎ ReadFails k) × (h ≡ to_list (history prior)))
      → Extended k prior w
          (store.set_json Shape.history_shape
            (key_flight_history k)
            (record { result = next_history h prior })
            game_active_flight_ttl
            v).1
  written k prior h w v same why =
      let next : HistorySnapshot = record { result = next_history h prior } in
      let key = key_flight_history k in
      let set = store.set_json Shape.history_shape key next game_active_flight_ttl v in
      let as_read : (l : List Flight)
          → h ≡ l
          → history_at k set.1 ≡ some next
          → history_at k set.1 ≡ some (record { result = grown l prior }) =
        λ l e now.
          subst (λ l. history_at k set.1 ≡ some (record { result = l }))
            (next_history-grown h prior ∙ ap (λ l. grown l prior) e) now in
      elim (Bool-cases set.0) [
        | inl ok ↦
            let now = c.set_ok Shape.history_shape key next game_active_flight_ttl v ok in
            elim why [
              | inl (s, held, e) ↦ extends s held (as_read s.result e now)
              | inr (first, e) ↦ starts first (as_read (to_list (history prior)) e now)
            ]
        | inr bad ↦ elim (c.set_either Shape.history_shape key next game_active_flight_ttl v) [
          | inl unset ↦ fails (next, v, bad) (unset ∙ same)
          | inr now ↦ elim why [
            | inl (s, held, e) ↦ extends s held (as_read s.result e now)
            | inr (first, e) ↦ starts first (as_read (to_list (history prior)) e now)
          ]
        ]
      ]

  cache_history-Recorded :
      (k : String) (o : Option Flight) (w : W) → Recorded k o w (cache_history store o k w)
  cache_history-Recorded k none w = refl
  cache_history-Recorded k (some prior) w =
      let key = key_flight_history k in
      let read = store.get_json Shape.history_shape key w in
      written k prior (history_of read.0 prior) w read.1
        (c.get_keeps Shape.history_shape Shape.history_shape key key w)
        (elim (get_cases c Shape.history_shape key w) [
          | inl failed ↦ rw failed (inr (inr (w, failed), refl))
          | inr (inl (s, got, held)) ↦ rw got (inl (s, held, refl))
          | inr (inr (got, gone)) ↦ rw got (inr (inl gone, refl))
        ])

  cache_history-other :
      (k j : String) (o : Option Flight) (w : W)
      → k ≢ j
      → history_at k (cache_history store o j w) ≡ history_at k w
  cache_history-other k j none w ne = refl
  cache_history-other k j (some prior) w ne =
      let read = store.get_json Shape.history_shape (key_flight_history j) w in
      c.set_ne Shape.history_shape Shape.history_shape (key_flight_history j) (key_flight_history k)
        _ game_active_flight_ttl read.1 (key_flight_history-ne k j ne)
      ∙ c.get_keeps Shape.history_shape Shape.history_shape (key_flight_history j)
          (key_flight_history k) w

  -- the flight of an id in the snapshot before, if one of `ids` is this id and not blank
  abbrev pub prior_of : Map Flight → List String → String → Option Flight
  prior_of index ids k = if k == "" then none else if has_key k ids then get k index else none

  module _ (index : Map Flight) where
    -- a flight that is not blank comes first
    first-Recorded :
        (f : Flight) (current : List Flight) (k : String) (w w' : W)
        → (flight_id f == "") ≡ false
        → find flight_id (flight_id f) current ≡ none
        → Recorded k
            (prior_of index (map flight_id current) k)
            (cache_history store (get (flight_id f) index) (flight_id f) w)
            w'
        → Recorded k (prior_of index (map flight_id (f ∷ current)) k) w w'
    first-Recorded f current k w w' given alone rest = elim (Bool-cases (flight_id f == k)) [
      | inl here ↦
          let e : flight_id f ≡ k = (eq_iff (flight_id f) k).0 here in
          let no_more : has_key k (map flight_id current) ≡ false =
            rw (← e) (has_key-find flight_id (flight_id f) current alone) in
          let named : (k == "") ≡ false = rw (← e) given in
          let rest' = rw (named, no_more, e) at rest in
          rw (named, here)
            (Recorded-after k (get k index) w (cache_history store (get k index) k w) w' rest'
              (cache_history-Recorded k (get k index) w))
      | inr other ↦
          let ne : k ≢ flight_id f = ground (arith, eq_iff (flight_id f) k) in
          rw other (
            Recorded-before k (prior_of index (map flight_id current) k) w _ w'
              (cache_history-other k (flight_id f) (get (flight_id f) index) w ne) rest)
    ]

    blank-Recorded :
        (f : Flight) (current : List Flight) (k : String) (w w' : W)
        → (flight_id f == "") ≡ true
        → Recorded k (prior_of index (map flight_id current) k) w w'
        → Recorded k (prior_of index (map flight_id (f ∷ current)) k) w w'
    blank-Recorded f current k w w' blank rest = elim (Bool-cases (k == "")) [
      | inl no_name ↦ rw no_name (rw no_name at rest)
      | inr named ↦
          let other : (flight_id f == k) ≡ false =
            ground (arith, eq_iff (flight_id f) "", eq_iff (flight_id f) k, eq_iff k "") in
          rw other rest
    ]

    pub cache_histories-Recorded :
        (k : String) (current : List Flight) (w : W)
        → IsDistinct flight_id current
        → Recorded k
            (prior_of index (map flight_id current) k)
            w
            (cache_histories store index current w)
    unfolding cache_histories
    cache_histories-Recorded k [] w distinct = elim (Bool-cases (k == "")) [
      | inl blank ↦ rw blank refl
      | inr named ↦ rw named refl
    ]
    cache_histories-Recorded k (f ∷ current) w (alone, distinct) =
        elim (Bool-cases (flight_id f == "")) [
          | inl blank ↦
              rw blank (
                blank-Recorded f current k w _ blank
                  (cache_histories-Recorded k current w distinct))
          | inr given ↦ rw given (
              first-Recorded f current k w _ given alone
                (cache_histories-Recorded k current _ distinct))
        ]
