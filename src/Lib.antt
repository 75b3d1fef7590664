-- ===== src/Lib.antt =====
-- A verification library for an order platform of three Go programs: api-gateway, an HTTP gateway;
-- user-service, a gRPC server for accounts, sessions and tokens; and order-service, a gRPC server for
-- orders. The gateway calls the two services, user-service keeps users in PostgreSQL and sessions in
-- Redis, order-service keeps orders in PostgreSQL.
--
-- How the modules follow the code:
-- - Protos: the messages of protos/user-service.proto and protos/order-service.proto, and the
--   generated validation of each (protos/generated-user/user-service.pb.validate.go and
--   protos/generated-order/order-service.pb.validate.go). Rules holds the checks of one field and
--   `validate(all)`; Address holds _validateHostname and _validateEmail, and
--   Violation the error types of each message.
-- - UserService: Crypto is user-service/internal/crypto/crypto.go, Repo is
--   user-service/internal/db/postgres.go, Sessions is user-service/internal/db/redis.go, and Server is
--   the handlers of user-service/main.go.
-- - OrderService: Repo is order-service/internal/db/db.go, Server the handlers of
--   order-service/main.go, Ledger what the handlers promise, apart from tables and columns.
-- - Gateway: Service is api-gateway/internal/service/service.go (the retries, the breaker, and in Writer
--   the methods of ctx that write to the response), Mdwr the
--   middleware of api-gateway/internal/mdwr, Http the requests and replies that they pass on, Users
--   and Orders the handlers of api-gateway/internal/users/handler.go and
--   api-gateway/internal/orders/handler.go (their Writes have the handlers
--   on the response writer, but for extUserId), Routers the middleware of each group
--   (api-gateway/internal/routers/routers.go), Breaker the settings of the circuit breaker
--   (api-gateway/internal/cbreaker/cb.go), Clients the two clients of the services and
--   their collectors (api-gateway/internal/users/users.go, api-gateway/internal/orders/orders.go),
--   Server the server that NewServer puts together, and Backend the services behind the gateway.
-- - Shutdown: internal/graceful/shutdown.go, of which each program has a copy, as a step relation, and
--   in Shutdown.Graceful with its times: gracefulShutdown of the three main.go, and ShutdownServices,
--   whose goroutines are in Shutdown.Services.
-- - Startup: initDB of user-service/internal/db/postgres.go and order-service/internal/db/db.go, Programs
--   main of user-service/main.go and order-service/main.go, Gateway main of api-gateway/main.go, and
--   Logs its setupLog. Gateway.Debug is the pprof server that it starts.
-- - Errors, Exec, Strings, Prelude: Go's error values, functions that act on a state and may fail, the
--   functions of Go's strings package that are used, and shared helpers.
-- - Sql, Redis, Libs: the third-party code as parameters, with what the proofs assume of it as records
--   of laws (IsPostgres, IsRedis, IsJwt, IsBcrypt), and IsUp for a server that answers. Sql.Schema has
--   the unique columns of init.sql, and the columns that it fills with the time of an insertion.
-- - Tests: an instance in memory of each parameter, with its laws proved, and runs of the code on it.
--
-- A function that changes state takes the state and returns it beside its result, also beside an
-- error: what was written before an error stays written. A world holds the state of the host (random
-- source and clock), of Redis and of PostgreSQL. A transaction is begun, used and ended through the
-- parameters of Sql, so that what is left open is counted. The retry loop of the gateway runs on the
-- number of attempts that are left, max_retries at the start, as in the code, and each attempt uses one;
-- so does initDB, with 10 attempts in user-service and 11 in order-service. The mux of the pprof server
-- runs on the depth of its nested calls, since it may call itself.
--
-- Not modelled: the lines that are logged, the timeouts of the HTTP server, the
-- generated code for protobuf encoding and gRPC stubs, the rune that the last error of
-- _validateHostname quotes, and the configuration files. chi and its
-- middleware are parameters. Times in Redis pass outside the model: a time to live is stored, and no
-- key expires. Requests run one after the other, but for those at the limiter
-- (Gateway.Mdwr.Concurrent), whose turns a schedule interleaves.
mod Prelude
pub mod Errors
pub mod Exec
pub mod Strings
pub mod Protos
pub mod Sql
pub mod Redis
pub mod Libs
pub mod UserService
pub mod OrderService
pub mod Gateway
pub mod Shutdown
pub mod Startup
pub mod Tests
