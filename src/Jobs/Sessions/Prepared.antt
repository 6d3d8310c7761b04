-- ===== src/Jobs/Sessions/Prepared.antt =====
-- `prepareCurrentSessions` against the sessions of the API.
use politburo.Prelude.{ℕ, Char, String, List, [], ◌∷◌, map, Map, get, length, ◌≡◌, refl}
use politburo.Keyed.{note_place, find, find_last, store, store_all, IsDistinct}
use politburo.Keyed.Places.{Agrees, Agrees-nil, Agrees-store, place-store_of_Agrees}
use politburo.Keyed.Laws.{
  or_first-none, add_keys, IsDistinct-store_all, find-store_all, map-store_all,
}
use politburo.Upstream.{Time, Session}
use politburo.Jobs.Sessions.{prepared, identity, prepare_from, prepare_current_sessions}

module _ (lower : Char → Char) (now : Time) where
  abbrev key : Session → String
  key = identity

  prepare_from-store_all :
      (indexes : Map ℕ) (current upstream : List Session)
      → Agrees key indexes current
      → prepare_from lower now indexes current upstream
        ≡ store_all key current (map (prepared lower now) upstream)
  unfolding prepare_from store_all
  prepare_from-store_all indexes current [] agrees = refl
  prepare_from-store_all indexes current (s ∷ upstream) agrees =
      let s' = prepared lower now s in
      rw (place-store_of_Agrees key indexes s' current agrees) (
        prepare_from-store_all (note_place (get (key s') indexes) (key s') (length current) indexes)
          (store key s' current) upstream (Agrees-store key indexes s' current agrees))

  prepare-store_all :
      (upstream : List Session)
      → prepare_current_sessions lower now upstream
        ≡ store_all key [] (map (prepared lower now) upstream)
  unfolding prepare_current_sessions
  prepare-store_all upstream = prepare_from-store_all [] [] upstream (Agrees-nil key)

  -- No two sessions of the result have one identity.
  pub prepare-IsDistinct :
      (upstream : List Session) → IsDistinct key (prepare_current_sessions lower now upstream)
  prepare-IsDistinct upstream =
      rw prepare-store_all (IsDistinct-store_all key (map (prepared lower now) upstream) [] tt)

  -- The identities come in the order of the API, each where it comes first.
  pub map-prepare :
      (upstream : List Session)
      → map key (prepare_current_sessions lower now upstream)
        ≡ add_keys [] (map key (map (prepared lower now) upstream))
  map-prepare upstream = rw (prepare-store_all, map-store_all)

  -- The session of an identity is the last one of the API with it.
  pub find-prepare :
      (upstream : List Session) (k : String)
      → find key k (prepare_current_sessions lower now upstream)
        ≡ find_last key k (map (prepared lower now) upstream)
  find-prepare upstream k = rw (prepare-store_all, find-store_all) (unfold find in or_first-none _)
