-- ===== src/Lib.antt =====
-- async-job-poc: a service that accepts jobs over HTTP, stores them in MySQL, queues their IDs in
-- Redis, and runs them in workers with up to three retries. The development models the job entity,
-- the use cases that create, read and process a job, the adapters that store, queue and execute it,
-- the pool of workers, the HTTP handlers, the configuration, and how the two programs are put
-- together from them.
--
-- Files and code (paths from the root of the repository):
--   Job/Id, Job/Kind, Job/Status   internal/domain/job/id.go, type.go, status.go
--   Job/Entity, Job/Payload        internal/domain/job/job.go: New, Restore, validatePayload
--   Job/Getters                    internal/domain/job/job.go: the getters and the clones
--   Job/Lifecycle                  internal/domain/job/job.go and failure.go: MarkProcessing,
--                                  MarkSuccess, MarkFailed, RecordFailure, CanRetry
--   Errors                         the error variables (internal/domain/job/errors.go,
--                                  internal/adapters/executor/errors.go, internal/application/ports)
--                                  and how errors wrap one another
--   UseCase/Ports                  internal/application/ports
--   UseCase/CreateJob, GetJob, ProcessJob, Observer, Constructors
--                                  internal/application/usecase
--   Mysql/Record, Mysql/Repository internal/adapters/mysql
--   Mysql/Schema                   migrations/000001_create_jobs.up.sql
--   Redis                          internal/adapters/redis/job_queue.go
--   Executor/*                     internal/adapters/executor: dispatcher.go, payload.go, the three
--                                  handlers and simulated.go
--   Worker, Worker/Dispatcher, Worker/Processor, Worker/Outcome
--                                  internal/adapters/worker: pool.go, dispatcher.go,
--                                  processor_worker.go and worker.go
--   Clock                          internal/platform/clock/system.go
--   Cluster                        the API and a worker process over one store
--   Http/Response, Decoding, JobHandler, Health
--                                  internal/adapters/http/handler
--   Http/RequestId, Ui, Router     internal/adapters/http, internal/platform/requestid
--   Http/Fold, Http/Server         strings.EqualFold; internal/platform/server/http_server.go
--   Config, Config/Atoi            internal/platform/config/config.go; strconv.Atoi
--   Logging                        internal/platform/logging
--   Mysql/Options, Mysql/Connection internal/platform/database/mysql.go
--   Redis/Options, Redis/Connection internal/platform/cache/redis.go
--   Startup, Startup/WorkerMain, Startup/ApiMain
--                                  cmd/worker/main.go, cmd/api/main.go
--   Idgen                          internal/platform/idgen/uuid.go
--   Base, Text, Time               what the models share: tests on numbers, Go's int, Go strings as
--                                  bytes with strings.TrimSpace and strings.ToLower, time.Time
-- The other files are proofs: Job/Named and Valid (the invariant of the entity), Job/Transitions,
-- Job/History (transitions as a relation), Job/Attempts (the retry rule), UseCase/CreateJob/Laws,
-- Publishing and Liveness, UseCase/ProcessJob/Effects, Failures, Running, Safety, Completion,
-- Liveness and Retrying, UseCase/GetJob/Lookup, UseCase/System (the use cases, one call after the
-- other), Mysql/RoundTrip, Mysql/Rows and Contract (the repository over a table), Redis/Fifo,
-- Executor/Routing and Limits, Idgen/Valid, Worker/Cases, Delivery, Work and Shutdown,
-- Mysql/Schema/Fitting (which jobs the table takes), Cluster/Consumer, Steps and Stored,
-- Http/Refusals, Creating, Getting, ReadBack, Ui/Paths, Health/Readiness and RequestId/Valid,
-- Config/Valid, Reading and Loading, Startup/Validated, Running and Programs, and the tests.
--
-- How the parts are modelled. An entity is a record; a method that changes it returns the entity
-- that it leaves together with its result. A use case is an action: a function of the world outside
-- the process (database, queue, clock, executor, log) to a result and the world it leaves, written
-- as a do block in the order of the Go statements; `or_fail` is the early return with a wrapped
-- error. UseCase/Ports states the interfaces as a record of such actions, and as PortLaws what the
-- proofs ask of them while no other process writes: a call that fails may or may not have had its
-- effect, a column may round times and normalise the JSON of a payload. Counters are Go's int, whose
-- increment wraps around. Errors are data: which sentinel they wrap, and the text that
-- RecordFailure stores. There is no fuel: every function is structural.
--   The worker pool is a state with the position of each goroutine in its loop, and a step for each
-- event: a call that returns, a case that a select takes, the cancellation. A schedule is a list of
-- events, so that the goroutines interleave in any order and executions overlap.
--   Cluster puts the pool beside the store that it shares with the API: Dequeue returns what the
-- queue gives, and a worker runs ProcessJob on the ID that it received. A call of CreateJob, of
-- Dequeue or of ProcessJob is one step of the store, so that the statements of two calls do not
-- interleave; the worker goes on from a call of ProcessJob at any later time, when a retry that
-- the call queued may be with another worker.
--   PortLaws is the contract that the use cases are written against. The repository over GORM
-- differs from it in one column: GORM writes the time of its own clock in updated_at (Mysql/Rows,
-- Mysql/Contract), where the contract has that of the entity.
--   An HTTP handler takes the state of the ResponseWriter (headers, status, values written) and the
-- world to both; a body is the value that is encoded. The middleware hands the request ID of the
-- context to the next handler as an argument.
--
-- Parameters. encoding/json (Unmarshal, Stream, Decoder), mime.ParseMediaType, net/mail
-- (parse_address), net.SplitHostPort, GORM with MySQL (Database, DatabaseLaws, UpdateLaws,
-- MysqlDriver), the Redis client (Client, ClientLaws, RedisDriver), JSON_TYPE and JSON_LENGTH
-- (check_payload), the texts of utf8mb4 (is_utf8mb4), time.Now, ServeMux, the file system and
-- FileServer (Files), the random source, the timers and contexts (Wait), and %q and %d of package
-- fmt (Verbs) are arguments. A Go map of handlers is an association list in the order in which
-- the loop visits it; the order in which Validate visits its map is a parameter that permutes the
-- entries. Of a text that is both too large for an int and no number, Atoi may report either
-- error; the model reports the second.
--
-- Not modelled: the log records that the handlers and the workers write; the JSON encoding of a
-- response; the process signals, which are I/O; the indexes of the table, the front end and the
-- scripts.
pub mod Clock
pub mod Cluster
pub mod Base
pub mod Text
pub mod Time
pub mod Errors
pub mod Job
pub mod UseCase
pub mod Mysql
pub mod Redis
pub mod Executor
pub mod Idgen
pub mod Tests
pub mod Worker
pub mod Http
pub mod Config
pub mod Logging
pub mod Startup
