-- ===== src/Lib.antt =====
-- Movra's settlement service, payouts of funded transfers to recipients, and its exchange-rate
-- service, rates, locks on rates and quotes.
--
-- The program (services/settlement-service): requests to start, retry, cancel and read payouts come
-- in over gRPC (internal/grpc/server.go), and funded transfers over Kafka (internal/kafka/consumer.go).
-- Both call the payout service (internal/service/payout_service.go), which keeps payouts
-- (internal/model/payout.go) in a store (internal/repository/repository.go) and has them paid by a
-- provider (internal/provider/provider.go). The store is Redis (internal/repository/
-- redis_repository.go), the provider a simulation (internal/provider/simulated.go), and the program
-- (cmd/server/main.go) puts them together by its configuration (internal/config/config.go).
--
-- In services/exchange-rate-service, the rate service (internal/service/rate_service.go) answers HTTP
-- (internal/handler/http_handler.go) and gRPC (internal/grpc/server.go) requests for rates, locks and
-- quotes. It takes rates from a cache, or else from a provider (internal/provider/provider.go), a
-- simulation (internal/provider/simulated.go); the cache and the locks are in Redis
-- (internal/repository/redis.go), and cmd/server/main.go puts the parts together.
--
-- The files:
--   Prelude: Boolean tests, integers over the native numbers, and `Action`, calls that change a
--     world and return a value or an error, with the rules by which an invariant passes through them.
--     A call that fails keeps the changes made before; an error that the source drops is `catch`.
--   Platform: `time.Time` as nanoseconds since the year 1, `fmt` of integers, JSON trees, the clock,
--     the random numbers and the waits as a record of operations, and floating-point numbers as
--     another, `Floats`, with the behaviour of IEEE 754 that some theorems take as `FloatLaws`.
--   Redis: the go-redis client as a record of operations, with what the server documents; in
--     Redis/Memory a server in memory that keeps it.
--   Settlement/Model, Settlement/Json: internal/model/payout.go and its JSON tags.
--   Settlement/Interfaces: the store and the provider as records of operations, and the laws that
--     the service relies on.
--   Settlement/Repository: SavePayout is `save_payout`, GetPayout `get_payout`, and so on.
--     Repository/Stored has the laws of the interfaces, Repository/Lookup reads what was saved,
--     Repository/Page, Rounds and Listing are about ListPayouts.
--   Settlement/Simulated: the simulated provider; Simulated/Answers what it answers.
--   Settlement/Service: InitiatePayout is `initiate_payout`, processPayout `process_payout`,
--     RetryPayout `retry_payout`, CancelPayout `cancel_payout`. Service/Lifecycle is the abstract
--     description: a relation whose steps are the saves of the service. Service/Confined, Runs,
--     Operations, Retrying and Cancelling relate the code to it; Requests and Refusals are about
--     sequences of requests, Reliable about a store that answers, with Settled what a request then
--     comes to.
--   Settlement/Tasks: the same operations as programs, trees of the calls on the store, the provider
--     and the clock. Tasks/Agreement relates them to Service; Tasks/Soundness, Carefulness and Progress
--     are rules and lemmas on their calls.
--   Settlement/Interleaving: requests that run at once, each in a goroutine of the gRPC server or of
--     the consumer. An event is the arrival of a request or the next call of one under way; the
--     calls of a request keep their order, and those of different requests come in any order.
--   Settlement/Config, Settlement/Wiring: the configuration, and the service that main builds.
--   Settlement/Kafka: the consumer; the reader is a sequence of rounds. Kafka/Events is what
--     `encoding/json` makes of an event, Kafka/Reading is about it, Kafka/Delivery about the loop.
--   Settlement/Grpc: handlers, with Grpc/Messages the message types, Grpc/Convert the conversions;
--     Grpc/Reported is about what they answer, over Service/Retrying and Service/Cancelling.
--   Exchange/Model, Exchange/Corridors: internal/model/rate.go, and the listing and lookup of corridors
--     in internal/service/rate_service.go.
--   Exchange/Interfaces: internal/provider/provider.go and internal/repository/repository.go, with the
--     error types as one data type, and the clock, UUIDs and random numbers as a record of operations.
--   Exchange/Json, Exchange/Repository: internal/repository/redis.go and the JSON it stores. SaveRate is
--     `save_rate`, and so on. Repository/Stored is about its writes, Repository/Locks and
--     Repository/Rates about what it answers.
--   Exchange/Simulated: internal/provider/simulated.go. The drift, which a mutex guards in the source,
--     is a cell of the world. Simulated/Mid is about getMidRate, Simulated/Spread about GetRate,
--     Simulated/Pairs has the constructor and GetSupportedPairs.
--   Exchange/Pricing: the margins, rates and fees of internal/service/rate_service.go.
--   Exchange/Service: the rest of that file, over the records of Interfaces; Service/Locking,
--     Service/Caching and Service/Quotes are about LockRate, GetRate and GetQuote.
--   Platform/Prometheus: the client library of Prometheus as a record of operations, with what it
--     documents; in Prometheus/Memory a registry in memory that keeps it.
--   Exchange/Metrics: internal/metrics/metrics.go, NewMetrics and the methods Record...; Metrics/Opts
--     the options of the ten metrics, Metrics/Recordings the calls of the methods as data, Metrics/Made
--     and Metrics/Recorded the lemmas.
--   Exchange/Config, Exchange/Wiring: the configuration, and the service that main builds.
--   Exchange/Http: internal/handler/http_handler.go, from what gin has read of a request to a status
--     and a body; Http/Locks follows a lock from its POST to its GET.
--   Exchange/Routes: SetupRoutes of the same file, the routes as data; gin's choice among them is a
--     parameter with its documented laws; Routes/FirstFit is a router
--     of that kind, Routes/Choices and Routes/Served are about requests.
--   Exchange/Grpc: internal/grpc/server.go, with Grpc/Messages the message types; Grpc/Stream is
--     StreamRates, whose `select` is a call that a stream answers with a tick or the context's error.
--   Settlement/Tests, Exchange/Tests: concrete runs over the server in memory.
--
-- Machine integers: `retryCount` and the numbers of the configuration are unbounded integers, since
-- they are only compared and raised by one; `int32` and `UnixNano` wrap around as written. The scan of
-- ListPayouts runs on fuel, one unit for each SCAN, and fails in the model if it runs out;
-- Repository/Page takes a bound on the rounds of a full iteration as a parameter, and more fuel than
-- that is enough. A time to live is handed to Redis and its expiry is a failed GET.
-- In the exchange-rate service, getMidRate runs on fuel: Simulated/Mid is about two units and more, and
-- `mid_rate` gives it two. A map of base rates is visited in the order of its literal. `time.Duration` of
-- a number of seconds wraps around; differences of times of more than 292 years are not cut off.
--
-- Not modelled: logging, the endpoint of the metrics and the health endpoints of the settlement
-- service, listening and shutdown, the stubs of the generated gRPC servers, the printed form of JSON,
-- exchange-rate requests that run at once, and the services that are not written in Go.
pub mod Prelude
pub mod Platform
pub mod Redis
pub mod Settlement
pub mod Exchange
