-- ===== src/Lib.antt =====
-- Secure Auth Gateway: an HTTP service that registers users, logs them in with a password, and
-- gives out short-lived access tokens with refresh tokens that are rotated at each use.
--
-- The parts and the files that model them:
-- - Http: the parts of `net/http` that the handlers use.
-- - Password: internal/auth/password.go (`HashPassword`, `VerifyPassword`), with the scanning of
--   `Sscanf` in Password/Scan and the unpadded base64 of Go's library in Password/Base64.
-- - Timing: internal/auth/timing.go (`CalibrateVerifyCost`, `FailureDelayTarget`, `FailureJitter`).
-- - Lockout: internal/redis_db/lockout.go (`RecordFailure`, `IsLocked`, `ResetFailures`).
-- - Tokens: internal/auth/paseto.go and pkg/pasetoauth/verifier.go.
-- - Handlers: internal/handlers, where Register, Login and Session hold the methods of `AuthHandler`
--   (auth.go), Responses what they share, and PublicKey the other endpoints. `RefreshKey` of
--   internal/redis_db/refresh.go is in Handlers/Login.
-- - Gate: the middleware of pkg/pasetoauth and internal/middleware.
-- - Routes: `RegisterSecureRoutes` of internal/handlers/routes.go; `serve` runs one request. Journey
--   joins a login to a request with the token that it gave out.
-- - History: sequences of requests. Keeps is the interface by which an invariant of the state goes
--   through the handlers (Parts, Logins, Sessions, Requests), and Sends the one by which a property
--   of the responses does (Replies, SessionReplies, RouteReplies). Accounts and Origins follow the
--   table of accounts.
-- - SessionTable: the table of sessions that the gateway promises, which a history of requests
--   refines (Refines).
-- - Interleaving: `Refresh` as stages between its accesses to the services (`advance`), goroutines
--   that take turns among the calls of other requests (System), and the sequential run (Alone).
-- - Startup: the start of cmd/api/main.go, internal/db, the connection of
--   internal/redis_db/redis.go, and cmd/keygen/main.go.
-- - Loadtest: cmd/loadtest: its statistics (stats.go and summary.go), Config, Dispatch, OpenLoop,
--   Watch, ClosedLoop, Requests and Addresses (main.go), Seed and Seeding (seed.go), and TimingRun
--   and Ranks (timing.go). Seeding and Requests/Throttling run against the modelled gateway.
-- - Loadreport: cmd/loadreport: Report (main.go), Aggregate (input.go), and Commas and Rates
--   (report.go).
-- - Tests: a concrete gateway on which the theorems are applied.
--
-- The services that the gateway calls are the fields of the record `Platform`: Redis, Postgres, the
-- limiter, the validator, Argon2id, PASETO, the clock and the random sources. What a theorem relies
-- on is in records of laws (`RedisLaws`, `PostgresLaws`, `LimiterLaws`, `LimiterStatus`,
-- `LimiterReplies`, `PasetoLaws`, `Argon2Laws`), which say what the services document: a Redis or
-- Postgres call has the documented effect, or reports an error and then has had that effect or
-- none. Platform/Redis and Platform/Postgres give the documented effect.
--
-- A request runs on a `World`: the time, the number of calls so far, the state of the services, and
-- the calibrated delay target. Each call takes the time that `lag` gives for its number. A handler
-- with its early returns is a chain of functions, one per step, each with the result of the step
-- before as its argument. A panic ends in the router's `Recoverer`, as a response 500.
--
-- Texts are lists of code points. Times and durations are nanoseconds in ℕ, and durations that can
-- be negative are integers. The clock does not run backwards. `decimal` takes as much fuel as the
-- number plus one, which is more than its digits. The loops of the connections run on the attempts
-- that are left, and a quotient is made a float64 by at most 110 doublings, which its size bounds.
--
-- The loops over time of a load test run on fuel: the dispatcher's on the nanoseconds since its
-- start plus two, since a positive period is a nanosecond at least, the loop of a user on the
-- nanoseconds of the phase plus one, since a request takes a nanosecond at least, and the loop over
-- ties on the number of samples, since each group has one at least.
--
-- Not modelled: logging, contexts that are cancelled other than by a client that leaves during the
-- wait of a failed login, requests other than refreshes that interleave (they are single calls
-- there), the server's shutdown, the transport of a load test's HTTP requests, the bootstrap and
-- the normal approximation of its timing check, and the text of its reports.
pub mod Prelude
pub mod Platform
pub mod Http
pub mod Password
pub mod Timing
pub mod Lockout
pub mod Tokens
pub mod Handlers
pub mod Gate
pub mod Routes
pub mod History
pub mod SessionTable
pub mod Interleaving
pub mod Startup
pub mod Loadtest
pub mod Loadreport
pub mod Tests
