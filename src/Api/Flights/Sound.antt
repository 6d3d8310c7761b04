-- ===== src/Api/Flights/Sound.antt =====
-- What the filters of the live flights are applied to.
use politburo.Prelude.{
  Char, String, Option, none, some, List, [], ◌==◌, ◌≡◌, ◌≢◌, ◌∙◌, refl, sym, Bool-cases, inl, inr,
}
use politburo.Strings.{trim_space}
use politburo.Flights.{Flight, Snapshot}
use politburo.Cache.{Store}
use politburo.Cache.Contract.{Contract}
use politburo.Http.{Headers}
use politburo.Api.Flights.{Query, Loaded, Loading, loaded, answered}
use politburo.Api.Flights.Load.{
  select, passes, keep, with_snapshot, with_server, with_selected, load_filtered,
}
use politburo.Api.Flights.Filtered.{result-load_from}
use politburo.Api.Flights.Read.{
  is_failure, IsError, held_in, IsRead, read_snapshot-IsRead, IsKnown, known_server-IsKnown,
}

module _ {W : Type 0} (store : Store W) (c : Contract store) (lower : Char → Char) (h : Headers)
    (query : Query) where
  abbrev pub held : W → Option Snapshot
  held w = held_in store c h query.server_id w

  -- The flights that pass the filters of the query, in a snapshot.
  abbrev pub listed : List String → Snapshot → List Flight
  listed selected s =
      keep (passes lower selected (trim_space query.user_name) (trim_space query.call_sign))
        s.result

  -- what a list of the flights of the state `w` is loaded from
  pub record IsLoaded (w : W) (l : Loaded) : Type 0 where
    pub snapshot : Snapshot
    pub selected : List String
    pub is_held : held w ≡ some snapshot
    pub is_cached : snapshot.last_cached ≢ 0
    pub chosen : select [] query.pilot_states ≡ some selected
    pub passed : l.result ≡ listed selected snapshot
    pub time : l.meta.last_cached ≡ snapshot.last_cached

  abbrev pub IsSound : W → Loading W Loaded → Type 0
  IsSound w (loaded l w') = IsLoaded w l
  IsSound w (answered r) = IsError r.0

  with_snapshot-IsSound :
      (w₀ w : W) (selected : List String) (r : Loading W Snapshot)
      → IsRead store c h query.server_id w r
      → held w ≡ held w₀
      → select [] query.pilot_states ≡ some selected
      → IsSound w₀ (with_snapshot store h lower query selected r)
  with_snapshot-IsSound w₀ w selected (answered r) read keeps chosen = read
  with_snapshot-IsSound w₀ w selected (loaded s w') (is_held, is_cached) keeps chosen = record {
    snapshot = s;
    selected = selected;
    is_held = sym keeps ∙ is_held;
    is_cached = is_cached;
    chosen = chosen;
    passed =
        result-load_from lower selected (trim_space query.user_name) (trim_space query.call_sign) s;
    time = refl;
  }

  with_server-IsSound :
      (w : W) (selected : List String) (r : Loading W Unit)
      → IsKnown store c h query.server_id w r
      → select [] query.pilot_states ≡ some selected
      → IsSound w (with_server store h lower query selected r)
  with_server-IsSound w selected (answered r) known chosen = known
  with_server-IsSound w selected (loaded u w') known chosen =
      with_snapshot-IsSound w w' selected _ (read_snapshot-IsRead store c h query.server_id w')
        known chosen

  with_selected-IsSound :
      (w : W) (o : Option (List String))
      → select [] query.pilot_states ≡ o
      → IsSound w (with_selected store h lower query o w)
  unfolding is_failure
  with_selected-IsSound w none chosen = refl
  with_selected-IsSound w (some selected) chosen =
      with_server-IsSound w selected _ (known_server-IsKnown store c h query.server_id w) chosen

  pub load_filtered-IsSound : (w : W) → IsSound w (load_filtered store h lower query w)
  unfolding load_filtered is_failure
  load_filtered-IsSound w = elim (Bool-cases (query.server_id == "")) [
    | inl blank ↦ rw blank refl
    | inr given ↦ rw given (with_selected-IsSound w (select [] query.pilot_states) refl)
  ]
