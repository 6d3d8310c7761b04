-- ===== src/Cache.antt =====
-- internal/cache: the interface by which jobs, services and handlers reach the cache.
pub mod Keys
pub mod Contract
pub mod Redis
use politburo.Prelude.{ℕ, String, Bool, List}
use politburo.Flights
use politburo.GameSessions
use politburo.Auth.{LoginTicket}
use politburo.BrowserSession
use politburo.ApiKeys.{StatusCache}

-- The types of the values that the program passes as `any` to the cache.
pub data Shape : Type 0 where
  sessions_shape names_shape flights_shape history_shape livery_shape : Shape
  status_shape ticket_shape session_shape : Shape

abbrev pub El : Shape → Type 0
El Shape.sessions_shape = GameSessions.Snapshot
El Shape.names_shape = List String
El Shape.flights_shape = Flights.Snapshot
El Shape.history_shape = Flights.HistorySnapshot
El Shape.livery_shape = GameSessions.Livery
El Shape.status_shape = StatusCache
El Shape.ticket_shape = LoginTicket
El Shape.session_shape = BrowserSession.Session

-- The result of a read: the decoded value, `ErrMiss`, or another error.
pub data Reply (A : Type 0) : Type 0 where
  hit : A → Reply A
  miss : Reply A
  broken : Reply A

-- `Store` together with `session.JSONCache` and `auth.ticketCache`, which `RedisStore` implements.
-- `W` is the state of the cache and of what it depends on. A write answers `true` for a nil error.
-- The third argument of `set_json` is the time to live in nanoseconds, 0 for none.
pub record Store (W : Type 0) : Type 0 where
  pub get_json : (t : Shape) → String → W → Reply (El t) × W
  pub set_json : (t : Shape) → String → El t → ℕ → W → Bool × W
  pub delete : String → W → Bool × W
  pub get_del_json : (t : Shape) → String → W → Reply (El t) × W
