-- ===== src/Api/Flights/Listed.antt =====
-- What the list of the live flights answers, against the snapshot in the cache.
use politburo.Prelude.{
  Char, String, true, some, List, map, length, ◌≡◌, refl, Bool-cases, inl, inr, subst,
}
use politburo.Ints.{lt_int}
use politburo.Flights.{Flight, without_history, Snapshot}
use politburo.Flights.Page.{Page, page, panic, paginate}
use politburo.Cache.{Store}
use politburo.Cache.Contract.{Contract}
use politburo.Api.{Data}
use politburo.Http
use politburo.Http.{Headers, Response}
use politburo.Api.Flights.{
  Query, Loaded, Body, list_body, markers_body, detail_body, Loading, loaded, answered, Served,
  served, panicked,
}
use politburo.Api.Flights.Active.{with_page, with_loaded, get_active_flights}
use politburo.Api.Flights.Asked.{
  AreThose, IsAsked, keep-passes-AreThose, AreChosen, select-AreChosen,
}
use politburo.Api.Flights.Read.{is_failure}
use politburo.Api.Flights.Sound.{held, IsLoaded, IsSound, load_filtered-IsSound}

module _ {W : Type 0} (store : Store W) (c : Contract store) (lower : Char → Char) (h : Headers)
    (query : Query) where
  -- what a list in a response shows of the flights of the state `w`
  pub record IsListed (w : W) (d : Data Flight Flight) : Type 0 where
    pub snapshot : Snapshot
    pub selected : List String
    pub is_held : held store c lower h query w ≡ some snapshot
    pub all : List Flight
    pub filtered :
        AreThose (IsAsked lower selected query.user_name query.call_sign) snapshot.result all
    pub chosen : AreChosen query.pilot_states selected
    pub paged : List Flight
    pub is_page : paginate all query.page_number query.page_length ≡ page paged
    pub shown : d.result ≡ map without_history paged
    pub total :
        d.pagination
        ≡ some (record {
          total_length = length all;
          page_length = query.page_length;
          page_number = query.page_number;
        })
    pub time : d.meta.last_cached ≡ snapshot.last_cached

  -- the list of a payload, unless the response is an error
  abbrev IsAnswer : W → Http.Body Body → Type 0
  IsAnswer w (Http.Body.payload (list_body d)) = IsListed w d
  IsAnswer w b = is_failure b ≡ true

  abbrev IsServed : W → Served W → Type 0
  IsServed w (served r) = IsAnswer w r.0.body
  IsServed w (panicked w') = Unit

  error-IsAnswer : (w : W) (b : Http.Body Body) → is_failure b ≡ true → IsAnswer w b
  unfolding is_failure
  error-IsAnswer w (Http.Body.failure code message) e = e
  error-IsAnswer w (Http.Body.payload (list_body d)) e = cc
  error-IsAnswer w (Http.Body.payload (markers_body m)) e = e
  error-IsAnswer w (Http.Body.payload (detail_body d)) e = e
  error-IsAnswer w Http.Body.empty e = e
  error-IsAnswer w (Http.Body.text t) e = e

  with_page-IsServed :
      (w : W) (l : Loaded) (p : Page Flight) (w' : W)
      → IsLoaded store c lower h query w l
      → paginate l.result query.page_number query.page_length ≡ p
      → IsServed w (with_page store h lower query l p w')
  with_page-IsServed w l panic w' from paging = tt
  with_page-IsServed w l (page paged) w' from paging = record {
    snapshot = from.snapshot;
    selected = from.selected;
    is_held = from.is_held;
    all = l.result;
    filtered = rw from.passed (
        keep-passes-AreThose lower from.selected query.user_name query.call_sign
          from.snapshot.result);
    chosen = select-AreChosen query.pilot_states from.selected from.chosen;
    paged = paged;
    is_page = paging;
    shown = refl;
    total = refl;
    time = from.time;
  }

  with_loaded-IsServed :
      (w : W) (r : Loading W Loaded)
      → IsSound store c lower h query w r
      → IsServed w (with_loaded store h lower query r)
  with_loaded-IsServed w (answered r) sound = error-IsAnswer w r.0.body sound
  with_loaded-IsServed w (loaded l w') sound = with_page-IsServed w l _ w' sound refl

  get_active_flights-IsServed : (w : W) → IsServed w (get_active_flights store h lower query w)
  unfolding get_active_flights is_failure
  get_active_flights-IsServed w = elim (Bool-cases (lt_int query.page_number 1)) [
    | inl low ↦ rw low refl
    | inr number ↦ rw number (elim (Bool-cases (lt_int query.page_length 1)) [
      | inl low ↦ rw low refl
      | inr len ↦ rw len (with_loaded-IsServed w _ (load_filtered-IsSound store c lower h query w))
    ])
  ]

  -- A response with a list shows the flights of the snapshot that the cache holds for the server:
  -- those that the query asks for, by their pilot state, user name and call sign, in the order of the
  -- snapshot, the asked page of them by `paginate`, each without its history. The response has the
  -- number of all that are asked for, and the time of the snapshot.
  pub get_active_flights-IsListed :
      (w w' : W) (r : Response Body) (d : Data Flight Flight)
      → get_active_flights store h lower query w ≡ served (r, w')
      → r.body ≡ Http.Body.payload (list_body d)
      → IsListed w d
  get_active_flights-IsListed w w' r d e b =
      subst (IsAnswer w) b (subst (IsServed w) e (get_active_flights-IsServed w))
