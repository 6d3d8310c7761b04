-- ===== src/Api/Flights/Opened.antt =====
-- What a click on a marker opens.
use mathlib.Core.List.{Memᴰ}
use mathlib.Core.List.Memᴰ
use politburo.Prelude.{
  Char, String, false, Option, none, some, List, [], ◌∷◌, length, ◌==◌, ◌≡◌, ◌⊎◌, inl, inr, refl,
  ◌≢◌, eqb, eqb_iff, ◌∙◌, sym, Bool-cases, arith, eq_iff, eq_refl, none≢some, eq_of_some,
}
use politburo.Keyed.{find, IsDistinct}
use politburo.Auth.Tickets.{Bytes, Cipher, IsCipher}
use politburo.Strings.{trim_space}
use politburo.Flights.{Flight, flight_id, without_history, Snapshot}
use politburo.Flights.Token.{Json, IsJson, decode}
use politburo.Cache.{Store, Reply, hit, miss, broken, Shape}
use politburo.Cache.Contract.{Contract}
use politburo.Cache.Keys.{key_active_flights}
use politburo.Http
use politburo.Http.{Headers, Response}
use politburo.Api.Flights.{Query, TrimmedFlight, Markers, Body, markers_body, detail_body}
use politburo.Api.Flights.Load.{meta_of, read_snapshot, snapshot_of}
use politburo.Api.Flights.Read.{held_in}
use politburo.Api.Flights.Trimmed.{token_of, trimmed_flight, get_trimmed_active_flights}
use politburo.Api.Flights.Detail.{with_snapshot, get_active_flight}
use politburo.Api.Flights.Asked.{AreThose-Mem}
use politburo.Api.Flights.Marked.{IsMark, AreMarks, nil, cons, get_trimmed_active_flights-IsMarked}

find-Mem :
    (key : Flight → String) (f : Flight) (l : List Flight)
    → Memᴰ f l
    → IsDistinct key l
    → find key (key f) l ≡ some f
unfolding find
find-Mem key f [] m d = absurd (Memᴰ.not-nil m)
find-Mem key f (x ∷ l) m (fresh, d) = elim (Memᴰ.cases_cons m) [
  | inl same ↦ rw (same, eq_refl) refl
  | inr later ↦
      let found = find-Mem key f l later d in
      elim (Bool-cases (key x == key f)) [
        | inl equal ↦
            let k : key x ≡ key f = ground (arith, eq_iff (key x) (key f)) in
            absurd (none≢some {a = f} (sym fresh ∙ rw k found))
        | inr other ↦ rw other found
      ]
]

marked-Mem :
    (g : Cipher) (j : Json) (secret : Bytes) (server_id : String) (m : TrimmedFlight)
    (fs : List Flight) (ms : List TrimmedFlight)
    → AreMarks g j secret server_id fs ms
    → Memᴰ m ms
    → (f : Flight) × Memᴰ f fs × IsMark g j secret server_id f m
marked-Mem g j secret server_id m [] (m' ∷ ms) marks at = elim marks [ ]
marked-Mem g j secret server_id m (f ∷ fs) [] marks at = elim marks [ ]
marked-Mem g j secret server_id m [] [] nil at = absurd (Memᴰ.not-nil at)
marked-Mem g j secret server_id m (f ∷ fs) (m' ∷ ms) (cons one rest) at =
    elim (Memᴰ.cases_cons at) [
      | inl same ↦ (f, Memᴰ.head refl, rw same one)
      | inr later ↦
          let (f', there, mark) = marked-Mem g j secret server_id m fs ms rest later in
          (f', Memᴰ.tail there, mark)
    ]

module _ (g : Cipher) (j : Json) (secret : Bytes) {W : Type 0} (store : Store W)
    (c : Contract store) (h : Headers) where
  -- the detail of a flight, unless the cache fails
  abbrev pub Opens : Snapshot → Flight → Response Body → Type 0
  Opens s f r =
      (r.body
        ≡ Http.Body.payload (detail_body (record { result = without_history f; meta = meta_of s })))
      ⊎ (r.status ≡ 500)

  module _ (server_id : String) (s : Snapshot) (f : Flight) (w : W)
      (is_held : held_in store c h server_id w ≡ some s) (is_cached : s.last_cached ≢ 0)
      (there : find flight_id (flight_id f) s.result ≡ some f) where
    snapshot_of-Opens :
        (r : Reply Snapshot × W)
        → ((v : Snapshot) → r.0 ≡ hit v → held_in store c h server_id w ≡ some v)
        → (r.0 ≡ miss → held_in store c h server_id w ≡ none)
        → Opens s f (with_snapshot h (token_of server_id f) (snapshot_of store h r)).0
    snapshot_of-Opens (broken, w') of_hit of_miss = inr refl
    snapshot_of-Opens (miss, w') of_hit of_miss = absurd (none≢some (sym (of_miss refl) ∙ is_held))
    snapshot_of-Opens (hit v, w') of_hit of_miss =
        let same : v ≡ s = eq_of_some (sym (of_hit v refl) ∙ is_held) in
        let set : eqb s.last_cached 0 ≡ false = ground (arith, eqb_iff s.last_cached 0) in
        rw (same, set, there) (inl refl)

    get_active_flight-Opens :
        (raw : String)
        → decode g j secret (trim_space raw) ≡ some (token_of server_id f)
        → Opens s f (get_active_flight h g j secret store raw w).0
    unfolding get_active_flight read_snapshot
    get_active_flight-Opens raw e = rw e (
        snapshot_of-Opens _ (c.get_hit Shape.flights_shape (key_active_flights server_id) w)
          (c.get_miss Shape.flights_shape (key_active_flights server_id) w))

  -- While the cache holds the snapshot of the map, in which no flight id stands twice, the id of each
  -- of its markers opens, with or without space around it, the detail of the flight that is marked,
  -- without its history; the only other answer is status 500, for an error of the cache.
  pub get_active_flight-marker :
      (law : IsCipher g) (json : IsJson j) (draw : W → Option Bytes × W)
      (sizes : (w : W) (nonce : Bytes) → (draw w).0 ≡ some nonce → length nonce ≡ g.nonce_size)
      (lower : Char → Char) (query : Query) (w w' : W) (d : Markers) (m : TrimmedFlight)
      (raw : String)
      → (get_trimmed_active_flights g j secret draw h store lower query w).0.body
        ≡ Http.Body.payload (markers_body d)
      → ((s : Snapshot)
          → held_in store c h query.server_id w ≡ some s
          → IsDistinct flight_id s.result)
      → Memᴰ m d.result
      → held_in store c h query.server_id w' ≡ held_in store c h query.server_id w
      → trim_space raw ≡ m.flight_id
      → (s : Snapshot) × (f : Flight) × (held_in store c h query.server_id w ≡ some s)
        × Memᴰ f s.result
        × (m ≡ trimmed_flight m.flight_id f)
        × Opens s f (get_active_flight h g j secret store raw w').0
  get_active_flight-marker law json draw sizes lower query w w' d m raw e distinct at kept same =
      let from =
        get_trimmed_active_flights-IsMarked g j secret store c lower h query law json draw sizes w d
          e in
      let (f, there, mark) = marked-Mem g j secret query.server_id m _ d.result from.marks at in
      let here : Memᴰ f from.snapshot.result =
        AreThose-Mem f from.snapshot.result from.all from.filtered there in
      let found =
        find-Mem flight_id f from.snapshot.result here (distinct from.snapshot from.is_held) in
      (
        from.snapshot,
        f,
        from.is_held,
        here,
        mark.1,
        get_active_flight-Opens query.server_id from.snapshot f w' (kept ∙ from.is_held)
            from.is_cached found raw (rw same mark.0),
      )
