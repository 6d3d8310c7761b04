-- ===== src/Api/Flights/Marked.antt =====
-- What the markers of the map stand for.
use politburo.Prelude.{
  Char, String, true, Option, none, some, List, [], ◌∷◌, length, ◌≡◌, ◌≢◌, refl, subst,
}
use politburo.Auth.Tickets.{Bytes, Cipher, IsCipher}
use politburo.Flights.{Flight, fields, Snapshot}
use politburo.Flights.Token.{Json, IsJson, encode, decode}
use politburo.Flights.Token.Laws.{decode-encode}
use politburo.Cache.{Store}
use politburo.Cache.Contract.{Contract}
use politburo.Http
use politburo.Http.{Headers, Response}
use politburo.Api.Flights.{
  Query, Loaded, TrimmedFlight, Markers, Body, list_body, markers_body, detail_body, Loading,
  loaded, answered,
}
use politburo.Api.Flights.Asked.{
  AreThose, IsAsked, keep-passes-AreThose, AreChosen, select-AreChosen,
}
use politburo.Api.Flights.Read.{is_failure}
use politburo.Api.Flights.Sound.{held, IsLoaded, IsSound, load_filtered-IsSound}
use politburo.Api.Flights.Trimmed.{
  token_of, trimmed_flight, prepended, marked, mark, with_marks, with_loaded,
  get_trimmed_active_flights,
}

module _ (g : Cipher) (j : Json) (secret : Bytes) where
  -- a marker with the token and the place of a flight
  abbrev pub IsMark : String → Flight → TrimmedFlight → Type 0
  IsMark server_id f m =
      (decode g j secret m.flight_id ≡ some (token_of server_id f))
      × (m ≡ record {
        flight_id = m.flight_id;
        callsign = (fields f).callsign;
        latitude = (fields f).latitude;
        longitude = (fields f).longitude;
        heading = (fields f).heading;
      })

  -- one marker for each flight, in their order
  pub data AreMarks (server_id : String) : List Flight → List TrimmedFlight → Type 0 where
    nil : AreMarks server_id [] []
    cons :
        {f : Flight} {m : TrimmedFlight} {fs : List Flight} {ms : List TrimmedFlight}
        → IsMark server_id f m
        → AreMarks server_id fs ms
        → AreMarks server_id (f ∷ fs) (m ∷ ms)

  abbrev pub AreMarksOf : String → List Flight → Option (List TrimmedFlight) → Type 0
  AreMarksOf server_id fs none = Unit
  AreMarksOf server_id fs (some ms) = AreMarks server_id fs ms

  module _ (law : IsCipher g) (json : IsJson j) {W : Type 0} (draw : W → Option Bytes × W)
      (sizes : (w : W) (nonce : Bytes)
        → (draw w).0 ≡ some nonce
        → length nonce ≡ g.nonce_size) where
    prepended-AreMarks :
        (server_id : String) (f : Flight) (fs : List Flight) (m : TrimmedFlight)
        (p : Option (List TrimmedFlight) × W)
        → IsMark server_id f m
        → AreMarksOf server_id fs p.0
        → AreMarksOf server_id (f ∷ fs) (prepended m p).0
    prepended-AreMarks server_id f fs m (none, w) one rest = tt
    prepended-AreMarks server_id f fs m (some ms, w) one rest = cons one rest

    marked-AreMarks :
        (server_id : String) (f : Flight) (fs : List Flight) (w : W)
        (rest : W → Option (List TrimmedFlight) × W) (p : Option String × W)
        → encode g j secret draw (token_of server_id f) w ≡ p
        → ((w' : W) → AreMarksOf server_id fs (rest w').0)
        → AreMarksOf server_id (f ∷ fs) (marked g j secret draw f rest p).0
    marked-AreMarks server_id f fs w rest (none, w') e marks = tt
    marked-AreMarks server_id f fs w rest (some raw, w') e marks =
        prepended-AreMarks server_id f fs (trimmed_flight raw f) (rest w')
          (decode-encode g j secret law json draw sizes (token_of server_id f) w w' raw e, refl)
          (marks w')

    pub mark-AreMarks :
        (server_id : String) (fs : List Flight) (w : W)
        → AreMarksOf server_id fs (mark g j secret draw server_id fs w).0
    unfolding mark
    mark-AreMarks server_id [] w = nil
    mark-AreMarks server_id (f ∷ fs) w =
        marked-AreMarks server_id f fs w (mark g j secret draw server_id fs) _ refl
          (λ w'. mark-AreMarks server_id fs w')

  -- what the markers in a response show of the flights of the state `w`
  module _ {W : Type 0} (store : Store W) (c : Contract store) (lower : Char → Char) (h : Headers)
      (query : Query) where
    pub record IsMarked (w : W) (d : Markers) : Type 0 where
      pub snapshot : Snapshot
      pub selected : List String
      pub is_held : held store c lower h query w ≡ some snapshot
      pub all : List Flight
      pub filtered :
          AreThose (IsAsked lower selected query.user_name query.call_sign) snapshot.result all
      pub is_cached : snapshot.last_cached ≢ 0
      pub chosen : AreChosen query.pilot_states selected
      pub marks : AreMarks query.server_id all d.result
      pub counted : d.count ≡ length d.result
      pub time : d.meta.last_cached ≡ snapshot.last_cached

    abbrev IsAnswer : W → Http.Body Body → Type 0
    IsAnswer w (Http.Body.payload (markers_body d)) = IsMarked w d
    IsAnswer w b = is_failure b ≡ true

    error-IsAnswer : (w : W) (b : Http.Body Body) → is_failure b ≡ true → IsAnswer w b
    unfolding is_failure
    error-IsAnswer w (Http.Body.failure code message) e = e
    error-IsAnswer w (Http.Body.payload (list_body d)) e = e
    error-IsAnswer w (Http.Body.payload (markers_body m)) e = cc
    error-IsAnswer w (Http.Body.payload (detail_body d)) e = e
    error-IsAnswer w Http.Body.empty e = e
    error-IsAnswer w (Http.Body.text t) e = e

    module _ (law : IsCipher g) (json : IsJson j) (draw : W → Option Bytes × W)
        (sizes : (w : W) (nonce : Bytes)
          → (draw w).0 ≡ some nonce
          → length nonce ≡ g.nonce_size) where
      with_marks-IsAnswer :
          (w : W) (l : Loaded) (p : Option (List TrimmedFlight) × W)
          → IsLoaded store c lower h query w l
          → AreMarksOf query.server_id l.result p.0
          → IsAnswer w (with_marks g j secret draw h l p).0.body
      unfolding is_failure
      with_marks-IsAnswer w l (none, w') from marks = refl
      with_marks-IsAnswer w l (some ms, w') from marks = record {
        snapshot = from.snapshot;
        selected = from.selected;
        is_held = from.is_held;
        all = l.result;
        filtered = rw from.passed (
            keep-passes-AreThose lower from.selected query.user_name query.call_sign
              from.snapshot.result);
        is_cached = from.is_cached;
        chosen = select-AreChosen query.pilot_states from.selected from.chosen;
        marks = marks;
        counted = refl;
        time = from.time;
      }

      with_loaded-IsAnswer :
          (w : W) (r : Loading W Loaded)
          → IsSound store c lower h query w r
          → IsAnswer w (with_loaded g j secret draw h query r).0.body
      with_loaded-IsAnswer w (answered r) sound = error-IsAnswer w r.0.body sound
      with_loaded-IsAnswer w (loaded l w') sound =
          with_marks-IsAnswer w l _ sound
            (mark-AreMarks law json draw sizes query.server_id l.result w')

      -- A response with markers has one for each flight of the snapshot in the cache that the query
      -- asks for, by its pilot state, its user name and its call sign, in their order, with the call
      -- sign, the place and the heading of the flight. Its id is a token that decodes to the flight
      -- and the server of the query.
      pub get_trimmed_active_flights-IsMarked :
          (w : W) (d : Markers)
          → (get_trimmed_active_flights g j secret draw h store lower query w).0.body
            ≡ Http.Body.payload (markers_body d)
          → IsMarked w d
      unfolding get_trimmed_active_flights
      get_trimmed_active_flights-IsMarked w d b =
          subst (IsAnswer w) b
            (with_loaded-IsAnswer w _ (load_filtered-IsSound store c lower h query w))
