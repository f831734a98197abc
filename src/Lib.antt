-- ===== src/Lib.antt =====
-- A distributed task queue: clients submit jobs over HTTP, a Redis server holds them in priority
-- lists, workers take and execute them, and a store keeps the record of each job.
--
-- The parts, and the files that model them:
-- * Jobs models internal/jobs/job.go: Types the records and constants, Create `NewJob`, Backoff
--   `BackoffDelay` in the int64 arithmetic of Go.
-- * Queue models internal/queue/redis/redis.go: Partition the keys (`getPartitionedKey`,
--   `getFairPartitionKeys` and their copies in the Lua scripts), Submit `Enqueue` and `Size`, Take
--   `Dequeue`, Settle `Ack`, `Fail`, the dead-letter list, the marks of processed requests and
--   `IsAllowed`, Maintain the two scripts and `ReconcileDeferredJobs`, Operate the pauses, the
--   tenants' settings and the reports. `GetMetrics`, `GetActiveWorkers` and the channel of the
--   cancellations are left out. Each method becomes a program
--   in a small monad over the server's state, with one request for one call of the client library,
--   in the order of the source.
-- * Redis is the server that the queue and the stores talk to. It is not part of the repository, so
--   every method of these takes it as an argument `call`; `Documented call` says that it executes the commands as
--   they are documented (`perform`), which their theorems suppose. The network may lose any request or any reply: `Server.faults`
--   is the list of what happens to the requests to come.
-- * Breaker models internal/worker/plugin/circuitbreaker.go, the circuit breaker of the worker's
--   plugins.
-- * Session models internal/api/session/session.go: the operators' sessions and, in Login, the
--   limiter of their logins.
-- * Storage models internal/storage/models: `InMemoryStore` of models.go, with its Query methods,
--   `DualStore` of dual_store.go over two stores that are given by their methods, and RedisStore the
--   `RedisStore` of models.go on the server of Redis; the replies to HSCAN and SCAN are arguments, one
--   list for each round.
-- * Service models internal/service/job_service.go: Create `CreateJob`, for given answers of the
--   store, the queue and the parsers; and, over any store that is known by its methods (those of
--   Storage.Dual), with a log of the calls in World: Results the end of a job and the promotion of its
--   dependents, Schedule `Dequeue`, the reconciliation and the recurring jobs, Admin replay, deletion,
--   purge and keys, Batch `CreateJobBatch`. The methods that only pass a call on are not repeated.
-- * Webhooks models internal/webhooks: Events the normal form of events.go, Store store.go and
--   Deliveries deliveries.go on the server of Redis, Dispatch `dispatch` and `backoff` of
--   dispatcher.go, as the list of the calls made for given answers.
-- * Worker models internal/worker/executor: Execute `Execute` of job_executor.go with the chain of
--   internal/worker/plugin/middleware.go, on the circuit breaker of Breaker; Process `ProcessOnce` of
--   worker_processor.go, as the list of the calls that it makes for given answers; Limiter, Pool and
--   Registry the token bucket (internal/worker/limiter), the state of the pool (internal/worker/pool) and
--   the map of plugins (internal/worker/plugin/registry.go).
-- * Api models internal/api: Auth the middleware of middleware/session.go and the chains of
--   routes/routes.go, whose cache of verified keys is state that the requests share; Requests the
--   validation of dto/dto.go; Tenants the handlers of one job in handler/access.go and
--   handler/handler.go, over Service. Elsewhere a route's handler is an argument.
-- * Sse models internal/sse/broker.go: the clients of the event stream, their buffered channels and
--   what they read.
-- * Prelude holds what the library adds for these: association maps, integers over the native
--   numbers, Boolean tests.
-- * Examples holds tests, each theorem applied at a concrete input.
--
-- Times are natural numbers of nanoseconds since the epoch, and every reading of the clock is an
-- argument; the readings of one call share one moment. A method that holds a lock is one step; `IsAllowed`
-- of the breaker, which does not, is two. Random draws (math/rand, crypto/rand) and fresh
-- identifiers are arguments. Jobs are values: where the source shares a pointer to a job, what is written
-- through it later (the trace that `Enqueue` sets on a job that is also in a store) is not seen in the
-- other place. A number of a configuration that only makes sense above zero (the rate limit of the queue)
-- is a natural number, and the ends of a page (offset + limit) do not wrap. The encoding of a job as JSON is
-- taken back by the decoding; it fails for a progress that is no number (`Enqueue` and RedisStore), and
-- that it fails for a year above 9999 is not modelled.
--
-- `Dequeue` loops without a bound in the source; `dequeue_loop` takes fuel, and one more than the
-- number of jobs in the lists that a call reads is enough, for each `continue` takes one job off them.
--
-- Not modelled: the other HTTP handlers and the pages (internal/api/handler), the generated OpenAPI
-- document (docs), the PostgreSQL store, whose logic is SQL, the loop in which the webhook dispatcher
-- reads the stream and its HTTP request, the plugins themselves (internal/worker/plugins), the loop that
-- runs a worker, and the commands (cmd), which start the parts.
-- Logging, metrics and tracing are left out, since nothing reads them back.
pub mod Prelude
pub mod Jobs
pub mod Api
pub mod Breaker
pub mod Session
pub mod Storage
pub mod Worker
pub mod Service
pub mod Sse
pub mod Webhooks
pub mod Redis
pub mod Queue
mod Examples
