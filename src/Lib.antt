-- ===== src/Lib.antt =====
-- The statok client for Go: a program records metrics, a background worker batches them and sends the
-- batches to an ingester over HTTP.
--
-- The parts, from the caller to the network:
--   labels.go                Label                                  Labels
--   unique_id.go             canonicalUniqueID                      UniqueId
--   value_rate_limiter.go    valueRateLimiter                       RateLimiter
--   event.go                 the events and their pool              Event
--   client.go                Count, Total, Value and the queue      Client/Producer
--                            the worker (run, flush, sendPayload)   Client/Worker
--                            the retry policy                       Client/Retry
--                            running totals (applyTotal)            Client/Totals
--   batch_builder.go         batchBuilder                           Batch
--   line_protocol_v4.go      the encoder and its dictionary         LineProtocol
--   transport.go             HTTPTransport.Send                     Transport
--                            analyzeLinePayloadV4                   Transport/Diagnostics
--   config.go                the syntax of a workload               Config
--                            the defaults and NewClient             Config/Defaults
--                            Init and the client of the package     Client/Default
--                            the worker over HTTPTransport          Client/Posts
--                            callers, worker and Close together     Client/Lifecycle
--   internal/agent           the runner of the collectors           Agent/Runner
--                            its limit on log lines                 Agent/LogLimiter
--   internal/collectors/core the CPU usage of the host              Agent/CpuUsage
--   internal/collectors/nginx                                       Agent/Nginx
--   internal/collectors/docker                             Agent/Docker
--   internal/integrations    the label of an instance               HostMetrics/Instance
--   cmd/statok-hostmetrics   which file is read                     HostMetrics/Sources
--     (config.go)            files of KEY=VALUE lines               HostMetrics/EnvFiles
--                            what the agent runs with               HostMetrics/Runtime
-- A caller's method turns its arguments into an event of the pool (Event) and puts it into the queue.
-- The worker takes the events out one by one; a total becomes a counter of the difference (Totals), a
-- full batch or a tick makes the batch builder build a payload (Batch), and Transport.Send is called
-- with it. A failure that looks transient puts the payload into the queue of retries and opens a
-- backoff of the whole client; a stop error ends all sending.
--
-- How the state corresponds: a struct is a record with the fields of the source in snake_case. The
-- Worker record holds the fields of Client that the worker's goroutine writes and the local variables
-- of run, and records the calls of Transport.Send and the readings of the clock; a World gives the
-- answers, the clock, the hash and the session. The worker knows a Transport by the outcome of each
-- call. A Link holds an HTTPTransport, its requests and its readings of the clock.
-- The handlers are functions on these records; run is the fold of the turns of the select loop over
-- any list of inputs, and drain is what the done context starts. The goroutines that share the rate
-- limiter are a step relation (RateLimiter/Threads), one step for each atomic action.
--
-- Fuel: flush_loop, the loop over the queue of retries, has fuel; each round passes one place or uses
-- one send, and a send adds at most one place, so the length of the queue and the limit of sends
-- together are enough (Client/Worker/Fuel). find_entry, the walk along a chain of the batch builder,
-- has one more than the number of entries; links lead backwards, so it is enough; to run out of it would
-- be a panic (Batch/Chains, Batch/Refines).
--
-- Numbers: times are nanoseconds since 1970, not negative; the sequence number of the batches wraps at
-- 2^64 where its text is made; the word of the rate limiter is a 64-bit number with its wrap written
-- out. A float64 is a type with its operations as parameters (Float), so that the theorems hold
-- for any rounding. Of the standard library, strings and strconv are modelled as far as they are used
-- (Go); ToLower and EqualFold on ASCII.
--
-- The queue stands between two models: a Front has the fields that callers read and write, and each
-- call is one step of it; the worker takes any list of events as its inputs. Client/Lifecycle puts the
-- two together with the context of Close: a step relation in which the guards of a call and its send
-- on the queue are two steps, and each turn of the worker is one. Client/Posts takes HTTPTransport.Send
-- for the worker's Transport.
--
-- The agent of a host: Run selects collectors, and each of them has a goroutine. Agent/Runner has the
-- goroutines, the semaphore and the goroutine of run as a step relation (an Agent record holds all of
-- them); the ticker and the timeouts are steps that may come at any time. The collectors of Docker and
-- nginx are functions from what the daemon or the server answers to the metrics; the list of the
-- containers that Docker's workers reach gives their order.
--
-- Not modelled: log lines and the functions that build their text (with the fields of the errors that
-- only those read, and the clock readings they make), the HTTP client and the JSON parser (what a
-- request comes to is a parameter), net/url (a parameter too), the collectors that read the host
-- through gopsutil or query MongoDB, the flags and signals of the commands, and the load generator.
pub mod Prelude
pub mod Go
pub mod Float
pub mod Labels
pub mod UniqueId
pub mod RateLimiter
pub mod Event
pub mod Batch
pub mod LineProtocol
pub mod Config
pub mod Transport
pub mod Client
pub mod Agent
pub mod HostMetrics
pub mod Examples
