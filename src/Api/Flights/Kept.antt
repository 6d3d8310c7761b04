-- ===== src/Api/Flights/Kept.antt =====
-- What the reads of the cache and of the random source keep, the three handlers keep.
use politburo.Prelude.{
  Char, String, Option, none, some, List, [], ◌∷◌, ◌==◌, length, eqb, not, Bool-cases, inl, inr,
}
use politburo.Ints.{lt_int}
use politburo.Strings.{trim_space}
use politburo.Auth.Tickets.{Bytes, Cipher}
use politburo.Flights.{Flight, flight_id, Snapshot}
use politburo.Flights.Page.{Page, page, panic, paginate}
use politburo.Flights.Token.{MarkerToken, Json, is_blank, with_payload, encode, decode}
use politburo.Keyed.{find}
use politburo.Cache.{Shape, Reply, hit, miss, broken, Store}
use politburo.Cache.Keys.{key_session_names, key_active_flights}
use politburo.Http.{Headers}
use politburo.Api.Flights.{
  Loaded, Query, TrimmedFlight, Loading, loaded, answered, Served, served, panicked,
}
use politburo.Api.Flights.Load
use politburo.Api.Flights.Load.{
  select, is_one_of, snapshot_of, read_snapshot, known_from, known_server, with_server,
  with_selected, load_filtered,
}
use politburo.Api.Flights.Active
use politburo.Api.Flights.Active.{with_page, get_active_flights}
use politburo.Api.Flights.Trimmed
use politburo.Api.Flights.Trimmed.{token_of, marked, mark, with_marks, get_trimmed_active_flights}
use politburo.Api.Flights.Detail
use politburo.Api.Flights.Detail.{with_flight, with_token, get_active_flight}

module _ {W : Type 0} (store : Store W) (h : Headers) (P : W → Type 0)
    (reads : (t : Shape) (k : String) (w : W) → P w → P (store.get_json t k w).1) where
  -- the state in which a step of a handler ends
  abbrev Loads : {A : Type 0} → Loading W A → Type 0
  Loads (loaded a w) = P w
  Loads (answered r) = P r.1

  abbrev pub Serves : Served W → Type 0
  Serves (served r) = P r.1
  Serves (panicked w) = P w

  snapshot_of-keeps : (r : Reply Snapshot × W) → P r.1 → Loads (snapshot_of store h r)
  snapshot_of-keeps (hit s, w) p = elim (Bool-cases (eqb s.last_cached 0)) [
    | inl unset ↦ rw unset p
    | inr set ↦ rw set p
  ]
  snapshot_of-keeps (miss, w) p = p
  snapshot_of-keeps (broken, w) p = p

  read_snapshot-keeps : (id : String) (w : W) → P w → Loads (read_snapshot store h id w)
  unfolding read_snapshot
  read_snapshot-keeps id w p =
      snapshot_of-keeps (store.get_json Shape.flights_shape (key_active_flights id) w)
        (reads Shape.flights_shape (key_active_flights id) w p)

  known_from-keeps :
      (id : String) (r : Reply (List String) × W) → P r.1 → Loads (known_from store h id r)
  known_from-keeps id (hit names, w) p = elim (Bool-cases (is_one_of id names)) [
    | inl known ↦ rw known p
    | inr unknown ↦ rw unknown p
  ]
  known_from-keeps id (miss, w) p = p
  known_from-keeps id (broken, w) p = p

  module _ (lower : Char → Char) (query : Query) where
    with_snapshot-keeps :
        (selected : List String) (l : Loading W Snapshot)
        → Loads l
        → Loads (Load.with_snapshot store h lower query selected l)
    with_snapshot-keeps selected (loaded s w) p = p
    with_snapshot-keeps selected (answered r) p = p

    with_server-keeps :
        (selected : List String) (l : Loading W Unit)
        → Loads l
        → Loads (with_server store h lower query selected l)
    with_server-keeps selected (loaded u w) p =
        with_snapshot-keeps selected (read_snapshot store h query.server_id w)
          (read_snapshot-keeps query.server_id w p)
    with_server-keeps selected (answered r) p = p

    with_selected-keeps :
        (o : Option (List String)) (w : W) → P w → Loads (with_selected store h lower query o w)
    unfolding known_server
    with_selected-keeps none w p = p
    with_selected-keeps (some selected) w p =
        with_server-keeps selected (known_server store h query.server_id w) (
          known_from-keeps query.server_id (store.get_json Shape.names_shape key_session_names w)
            (reads Shape.names_shape key_session_names w p))

    load_filtered-keeps : (w : W) → P w → Loads (load_filtered store h lower query w)
    unfolding load_filtered
    load_filtered-keeps w p = elim (Bool-cases (query.server_id == "")) [
      | inl blank ↦ rw blank p
      | inr given ↦ rw given (with_selected-keeps (select [] query.pilot_states) w p)
    ]

    with_page-keeps :
        (l : Loaded) (o : Page Flight) (w : W) → P w → Serves (with_page store h lower query l o w)
    with_page-keeps l (page paged) w p = p
    with_page-keeps l panic w p = p

    active-keeps :
        (l : Loading W Loaded) → Loads l → Serves (Active.with_loaded store h lower query l)
    active-keeps (loaded l w) p =
        with_page-keeps l (paginate l.result query.page_number query.page_length) w p
    active-keeps (answered r) p = p

    pub get_active_flights-keeps : (w : W) → P w → Serves (get_active_flights store h lower query w)
    unfolding get_active_flights
    get_active_flights-keeps w p = elim (Bool-cases (lt_int query.page_number 1)) [
      | inl low ↦ rw low p
      | inr number ↦ elim (Bool-cases (lt_int query.page_length 1)) [
        | inl low ↦ rw (number, low) p
        | inr size ↦
            rw (number, size)
              (active-keeps (load_filtered store h lower query w) (load_filtered-keeps w p))
      ]
    ]

  module _ (g : Cipher) (j : Json) (secret : Bytes) (draw : W → Option Bytes × W)
      (draws : (w : W) → P w → P (draw w).1) where
    with_payload-keeps : (o : Option Bytes) (w : W) → P w → P (with_payload g j secret draw o w).1
    with_payload-keeps none w p = p
    with_payload-keeps (some payload) w p = elim (Bool-cases (g.accepts secret)) [
      | inl accepted ↦ rw accepted (draws w p)
      | inr refused ↦ rw refused p
    ]

    encode-keeps : (t : MarkerToken) (w : W) → P w → P (encode g j secret draw t w).1
    unfolding encode
    encode-keeps t w p = elim (Bool-cases (not (eqb (length secret) 32))) [
      | inl short ↦ rw short p
      | inr long ↦ elim (Bool-cases (is_blank t)) [
        | inl blank ↦ rw (long, blank) p
        | inr given ↦ rw (long, given) (with_payload-keeps (j.marshal t) w p)
      ]
    ]

    marked-keeps :
        (f : Flight) (rest : W → Option (List TrimmedFlight) × W)
        → ((w : W) → P w → P (rest w).1)
        → (o : Option String × W) → P o.1
        → P (marked g j secret draw f rest o).1
    marked-keeps f rest keeps (none, w) p = p
    marked-keeps f rest keeps (some token, w) p = prepended-state (rest w) (keeps w p)
      where
        prepended-state :
            (o : Option (List TrimmedFlight) × W)
            → P o.1
            → P (Trimmed.prepended (Trimmed.trimmed_flight token f) o).1
        prepended-state (none, w) p = p
        prepended-state (some ts, w) p = p

    mark-keeps :
        (id : String) (flights : List Flight) (w : W)
        → P w
        → P (mark g j secret draw id flights w).1
    unfolding mark
    mark-keeps id [] w p = p
    mark-keeps id (f ∷ flights) w p =
        marked-keeps f (mark g j secret draw id flights) (mark-keeps id flights)
          (encode g j secret draw (token_of id f) w) (encode-keeps (token_of id f) w p)

    with_marks-keeps :
        (l : Loaded) (o : Option (List TrimmedFlight) × W)
        → P o.1
        → P (with_marks g j secret draw h l o).1
    with_marks-keeps l (none, w) p = p
    with_marks-keeps l (some ts, w) p = p

    trimmed-keeps :
        (query : Query) (l : Loading W Loaded)
        → Loads l
        → P (Trimmed.with_loaded g j secret draw h query l).1
    trimmed-keeps query (loaded l w) p =
        with_marks-keeps l (mark g j secret draw query.server_id l.result w)
          (mark-keeps query.server_id l.result w p)
    trimmed-keeps query (answered r) p = p

    pub get_trimmed_active_flights-keeps :
        (lower : Char → Char) (query : Query) (w : W)
        → P w
        → P (get_trimmed_active_flights g j secret draw h store lower query w).1
    unfolding get_trimmed_active_flights
    get_trimmed_active_flights-keeps lower query w p =
        trimmed-keeps query (load_filtered store h lower query w)
          (load_filtered-keeps lower query w p)

  with_flight-keeps : (s : Snapshot) (o : Option Flight) (w : W) → P w → P (with_flight h s o w).1
  with_flight-keeps s none w p = p
  with_flight-keeps s (some f) w p = p

  detail-keeps :
      (t : MarkerToken) (l : Loading W Snapshot) → Loads l → P (Detail.with_snapshot h t l).1
  detail-keeps t (loaded s w) p = with_flight-keeps s (find flight_id t.flight_id s.result) w p
  detail-keeps t (answered r) p = p

  with_token-keeps : (o : Option MarkerToken) (w : W) → P w → P (with_token h store o w).1
  with_token-keeps none w p = p
  with_token-keeps (some t) w p =
      detail-keeps t (read_snapshot store h t.server_id w) (read_snapshot-keeps t.server_id w p)

  pub get_active_flight-keeps :
      (g : Cipher) (j : Json) (secret : Bytes) (raw : String) (w : W)
      → P w
      → P (get_active_flight h g j secret store raw w).1
  unfolding get_active_flight
  get_active_flight-keeps g j secret raw w p =
      with_token-keeps (decode g j secret (trim_space raw)) w p
