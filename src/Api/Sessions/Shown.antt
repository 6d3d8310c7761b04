-- ===== src/Api/Sessions/Shown.antt =====
-- What the list of the sessions answers, against the snapshot in the cache.
use politburo.Prelude.{
  Bool, true, false, Option, some, List, [], ◌∷◌, map, length, All, eqb, eqb_iff, if◌then◌else◌,
  ◌≡◌, ◌≢◌, refl, ap, subst, arith, Bool-cases, inl, inr,
}
use politburo.GameSessions.{
  Snapshot, snapshot, result, last_cached, history, to_list, without_history,
}
use politburo.Cache.{Shape, Reply, hit, miss, broken, Store}
use politburo.Cache.Contract.{Contract}
use politburo.Cache.Keys.{key_active_sessions}
use politburo.Http
use politburo.Http.{Headers, Response}
use politburo.Jobs.Sessions.Stored.{IsFlat, map-IsFlat}
use politburo.Api.Sessions.{Body, is_asked, body_of, respond, get_active_sessions}

length-map_without : (l : List Snapshot) → length (map without_history l) ≡ length l
length-map_without [] = refl
length-map_without (s ∷ l) = omega (arith, length-map_without l)

times_without : (l : List Snapshot) → map last_cached (map without_history l) ≡ map last_cached l
times_without [] = refl
times_without (snapshot r t h ∷ l) = ap (λ ts. t ∷ ts) (times_without l)

results_without : (l : List Snapshot) → map result (map without_history l) ≡ map result l
results_without [] = refl
results_without (snapshot r t h ∷ l) = ap (λ rs. r ∷ rs) (results_without l)

module _ {W : Type 0} (store : Store W) (c : Contract store) (h : Headers) (asked : Option Bool)
    (w : W) where
  -- what a payload shows of the sessions of the state `w`
  pub record IsShown (d : Body) : Type 0 where
    pub snapshot : Snapshot
    pub past : List Snapshot
    pub is_held : c.holds Shape.sessions_shape key_active_sessions w ≡ some snapshot
    pub is_cached : last_cached snapshot ≢ 0
    pub sessions : d.result ≡ result snapshot
    pub time : d.meta.last_cached ≡ last_cached snapshot
    pub history_shown : d.history ≡ some past
    pub flat : All IsFlat past
    pub same_times :
        map last_cached past
        ≡ (if is_asked asked then map last_cached (to_list (history snapshot)) else [])
    pub same_sessions :
        map result past ≡ (if is_asked asked then map result (to_list (history snapshot)) else [])
    pub count : length past ≡ (if is_asked asked then length (to_list (history snapshot)) else 0)

  body_of-IsShown :
      (s : Snapshot)
      → c.holds Shape.sessions_shape key_active_sessions w ≡ some s
      → last_cached s ≢ 0
      → (b : Bool) → is_asked asked ≡ b
      → IsShown (body_of s b)
  body_of-IsShown s held set true e = record {
    snapshot = s;
    past = map without_history (to_list (history s));
    is_held = held;
    is_cached = set;
    sessions = refl;
    time = refl;
    history_shown = refl;
    flat = map-IsFlat (to_list (history s));
    same_times = rw e (times_without (to_list (history s)));
    same_sessions = rw e (results_without (to_list (history s)));
    count = rw e (length-map_without (to_list (history s)));
  }
  body_of-IsShown s held set false e = record {
    snapshot = s;
    past = [];
    is_held = held;
    is_cached = set;
    sessions = refl;
    time = refl;
    history_shown = refl;
    flat = tt;
    same_times = rw e refl;
    same_sessions = rw e refl;
    count = rw e;
  }

  -- the sessions of a payload, unless the response is an error
  abbrev IsAnswer : Http.Body Body → Type 0
  IsAnswer (Http.Body.payload d) = IsShown d
  IsAnswer b = Unit

  respond-IsAnswer :
      (r : Reply Snapshot × W)
      → (store.get_json Shape.sessions_shape key_active_sessions w).0 ≡ r.0
      → IsAnswer (respond store h asked r).0.body
  respond-IsAnswer (hit s, w') e = elim (Bool-cases (eqb (last_cached s) 0)) [
    | inl zero ↦ rw zero tt
    | inr set ↦
        let is_cached : last_cached s ≢ 0 = ground (arith, eqb_iff (last_cached s) 0) in
        rw set (
          body_of-IsShown s (c.get_hit Shape.sessions_shape key_active_sessions w s e) is_cached
            (is_asked asked) refl)
  ]
  respond-IsAnswer (miss, w') e = tt
  respond-IsAnswer (broken, w') e = tt

  -- A response with sessions shows those of the snapshot that the cache holds, and its time; the
  -- snapshots of its history are all there, with their sessions and times in their order, if the
  -- history is asked for, and none otherwise, each without a history of its own.
  pub get_active_sessions-IsShown :
      (d : Body) → (get_active_sessions store h asked w).0.body ≡ Http.Body.payload d → IsShown d
  unfolding get_active_sessions
  get_active_sessions-IsShown d e = subst IsAnswer e (respond-IsAnswer _ refl)
