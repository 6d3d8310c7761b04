-- ===== src/Lib.antt =====
-- politburo caches the live data of the Infinite Flight API in Redis and serves it over HTTP, to
-- browsers with a session and to bots with an API key. Scheduled jobs fetch sessions, flights and
-- liveries and write them to the cache; handlers read the cache; the middleware before them finds out
-- who calls. A bot gets a signed link for a user: a token that stands for a login ticket in the
-- cache, which the browser trades for a session.
--
-- The parts, by file:
--   Cache.antt            internal/cache/store.go: the interface of the cache, which all other parts
--                         take as a parameter; Cache/Contract is what they assume of it
--   Cache/Redis           internal/cache/store.go: `RedisStore`, over a client of Redis and an
--                         encoding that are parameters; Cache/Redis/Laws says what they document
--   Cache/Keys            internal/cache/keys.go
--   Flights               internal/game/flights: the cached flights (cache.go), Mapper (mapper.go),
--                         PilotState (pilotstate.go), Filter (filter.go), Page (paginate.go), Token
--                         (token.go)
--   GameSessions.antt     internal/game/sessions/cache.go and internal/game/liveries/cache.go
--   Jobs                  internal/jobs/sessions, internal/jobs/flights, internal/jobs/liveries
--   Jobs/Accepted         the jobs over the client of the API
--   Scheduler             internal/scheduler/scheduler.go: Steps is a step relation, Invariant and
--                         Reached what holds in every state, Stopped is about the wait of
--                         Stop; Scheduler/Jobs is internal/jobs/register.go
--   Upstream              internal/infiniteflight: the records of the API, and session names; Client
--                         is client.go
--   Auth                  internal/auth: claims, Tickets (ticket.go), Url (url.go)
--   ApiKeys               internal/apikeys: repository.go and lookup.go
--   BrowserSession        internal/session: session.go, Service (service.go), Cookie (cookie.go)
--   Middleware            internal/transport/http/middleware: Authenticate (auth.go), Roles
--                         (roles.go), Cors (cors.go), RateLimit (ratelimit.go), AccessLog
--                         (accesslog.go)
--   Api                   internal/transport/http/api: Flights (gameflights), Sessions
--                         (gamesessions), SignedLink (signedlink), Health (health), and the shape
--                         of the cached responses (cachedresponse). Api/Flights has Load for what its
--                         handlers share, Active, Trimmed and Detail for the three of them
--   Ui                    internal/transport/http/ui/handler.go; Ui/Link follows a signed link from
--                         its making to the session of its user
--   Router                internal/transport/http/server.go, but `Run`: Wiring gives it the services
--                         of internal/app/app.go, Guarded is about who gets through, Reads and Kept
--                         about what its requests leave as it was, Signed follows a signed link
--                         from its making to an answer of the machine API
--   Users                 internal/users/user.go, Repository (repository.go)
--   Config                internal/config/config.go: Env reads a setting, SecretKey is
--                         `parseSignedLinkSecret`, Load is `Load`
--   App                   internal/app/app.go, with the opening of the connections in
--                         internal/cache/store.go and internal/database/database.go
--   Main                  cmd/politburo/main.go, and `Run` of internal/transport/http/server.go
--   Metrics               internal/metrics/metrics.go, and the label values that the calls give
--   System                the whole around the cache: Step has the requests, jobs and expiries, and
--                         their single calls, with a log of the tickets; Fades, Handlers, Served and
--                         Refreshes are about what writes no ticket and no session, Issues,
--                         Consumes, Creates and Requests about the rest, Genuine and Answered about
--                         the claims that result
--   Http.antt             what the parts use of net/http, and internal/transport/http/response
--   Ints, Strings         Go's int, and what is used of the package strings
--   Keyed, Recent         lists with keys and lists of bounded length, which the jobs build
--   Prelude, Tests        shared names; concrete inputs, with a Redis in memory
--
-- State is passed explicitly. A part that uses the cache is a function over a type `W` of states and a
-- record `Store W` of the operations of the cache; a result of the source with an error is an
-- `Option`, a `Bool` (`true` for nil) or a type of its own. A handler is a function from the headers
-- set so far, the request and the state to a response and a state, and a middleware takes the next
-- handler. A helper that takes an operation's result and goes on stands for the rest of the source's
-- function behind that call.
--
-- Numbers of Go's type int are bit patterns below 2 ^ 64 and wrap around (Ints). Instants are
-- nanoseconds since the year 1. Strings are valid UTF-8. Every loop of the source that is modelled runs
-- over a list; the digits of a number alone take a bound on their count, and twenty are enough for 64
-- bits (Ints/Laws).
--
-- Parameters are the clock, the random source, AES-GCM, base64, float64 arithmetic and its
-- formatting, `time.Parse` and `time.ParseDuration`, `strconv`, `net/url`, `unicode.ToLower`,
-- the environment and the files, the database, the client of Redis, the templates, the registry
-- of Prometheus, the middleware of chi, and the packages under internal/api/generated, which the
-- build makes: the client of the API, and the routes and the parameters of the program's own
-- API. Cron is a step relation by what it documents; the wait of `Stop` for the jobs that run is
-- any number of its steps.
-- Requests that overlap are modelled only in System, where their calls of the cache may come in any
-- order; everywhere else a request or a run of a job is one step.
-- Not modelled: log lines and durations, JSON as text, the contexts with their deadlines, the
-- listener and its shutdown but for their results, the log sink (internal/logging) and the embedded
-- files.
pub mod Prelude
pub mod Ints
pub mod Strings
pub mod Upstream
pub mod Flights
pub mod Keyed
pub mod Recent
pub mod Auth
pub mod Http
pub mod Middleware
pub mod GameSessions
pub mod BrowserSession
pub mod ApiKeys
pub mod Cache
pub mod Config
pub mod Jobs
pub mod Scheduler
pub mod Users
pub mod Api
pub mod Ui
pub mod App
pub mod Router
pub mod Main
pub mod Metrics
pub mod System
pub mod Tests
