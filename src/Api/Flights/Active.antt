-- ===== src/Api/Flights/Active.antt =====
-- internal/transport/http/api/gameflights/handler.go: `GetActiveFlights`.
use politburo.Prelude.{Char, none, some, List, map, length, if◌then◌else◌}
use politburo.Ints.{lt_int}
use politburo.Flights.{Flight, without_history}
use politburo.Flights.Page.{Page, page, panic, paginate}
use politburo.Cache.{Store}
use politburo.Http.{Headers, write_json}
use politburo.Api.{Data}
use politburo.Api.Flights.{
  Query, Loaded, list_body, Loading, loaded, answered, Served, served, panicked,
}
use politburo.Api.Flights.Load.{invalid_query, load_filtered}

module _ {W : Type 0} (store : Store W) (h : Headers) where
  module _ (lower : Char → Char) (query : Query) where
    abbrev pub body_of : Loaded → List Flight → Data Flight Flight
    body_of l paged = record {
      available_filters = l.filters;
      result = map without_history paged;
      history = none;
      meta = l.meta;
      pagination = some (record {
        total_length = length l.result;
        page_length = query.page_length;
        page_number = query.page_number;
      });
    }

    abbrev pub with_page : Loaded → Page Flight → W → Served W
    with_page l (page paged) w = served (write_json h 200 (list_body (body_of l paged)) w)
    with_page l panic w = panicked w

    abbrev pub with_loaded : Loading W Loaded → Served W
    with_loaded (loaded l w) = with_page l (paginate l.result query.page_number query.page_length) w
    with_loaded (answered r) = served r

    unfoldable pub get_active_flights : W → Served W
    get_active_flights w =
        if lt_int query.page_number 1
        then served (invalid_query store h "pageNumber must be at least 1" w)
        else if lt_int query.page_length 1
        then served (invalid_query store h "pageLength must be at least 1" w)
        else with_loaded (load_filtered store h lower query w)
