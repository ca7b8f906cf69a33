-- ===== src/Lib.antt =====
-- Verification of llm-supervisor-proxy, an HTTP proxy in front of language models that balances
-- credentials, races upstream requests, detects loops, and escalates repeated requests to an
-- "ultimate" model.
--
-- A request is routed by the proxy's handler (pkg/proxy/handler.go). The handler asks the ultimate
-- model's handler whether a repeated request is escalated, the credential engine which credential of
-- the model's provider to use, and reads the upstream response through a reader with an idle timeout
-- into a bounded buffer, from which the client is served. Race runs the attempts of a request, which
-- fail over to other credentials and models. Loop detection watches the actions of the
-- answers.
--
-- CredentialLb models pkg/credentiallb, the choice of a credential for a conversation.
--   Selector: selector.go, weightedSelector with newWeightedSelector and pick. Interval: which draws
--     give which credential.
--   State: binding.go, modelState with isCoolingLocked, pickHealthyLocked and soonestCooldownLocked.
--     Validity: the data invariant. Healthy, Soonest: what the picks return.
--   Select: engine.go, GetOrSelect for one model. Validity, Safety and Sticky: the invariant, the
--     choice among healthy credentials, and the stability of a conversation's credential.
--   Exclude: engine.go, excludeAndReselectWithCooldown and the calls built on it. Failover: its
--     outcome.
--   Cooldown: failure_class.go, and pkg/proxy/cred_failover_class.go, how long a failed credential
--     rests. Bounds: the windows.
--   Engine: engine.go, the map of models, the janitor, OnModelChanged, RebindFromStore,
--     OnCredentialDeleted, Stats and Stop. Validity: the invariant of every reachable engine. Sweep:
--     the janitor against the answers. Change: what a change of the configuration keeps.
--   Times are natural numbers, counters wrap around as int64 where the code lets them, the sums of
--   weights are unbounded. The random generator is the stream of its draws. Between two critical
--   sections of one call other goroutines may act: what they do is an argument of the call (Others in
--   Select and Exclude), about which the theorems suppose only that it keeps the invariant.
--
-- HashCache models pkg/ultimatemodel/hash_cache.go, the ring buffer of request hashes with their
-- attempt counters, one step per method, each under the cache's lock. Ring: the buffer as a queue.
-- Queue: insertion against a bounded queue. Behind, Attempts: the counters. Dequeue, Removal: Remove.
--
-- Ultimate models pkg/ultimatemodel/handler.go as far as ShouldTrigger, ForceTrigger and
-- OnConfigChange, and HashMessages of hash_cache.go. SHA-256 is a parameter. It uses HashCache.
-- Schedule: the schedule of attempts. Forced: forced requests.
--
-- StreamBuffer models pkg/proxy/stream_buffer.go, one step per method. Stream: the buffer with its
-- client in pkg/proxy/handler.go. Delivery: what the client takes from it; the mask that it
-- puts over a group's chunks before it writes them is not modelled. Cache: the cached raw bytes.
-- Bounded: the limit. A buffer has one writer; the pool of byte slices and the channels that wake the
-- client carry no data and are not modelled.
--
-- MonitoredReader models pkg/supervisor/monitor.go. What ends the wait of a read is an argument.
-- Flow: what one read hands out. Progress: that a read brings the end nearer. Ending: which error ends
-- them. Delivery: all reads of a stream. The wait for the goroutine in Close is not modelled.
--
-- Lru models pkg/modelscache/lru.go, a bounded map that evicts what was written or read longest ago.
-- Bounded: its size, and what a write does. TokenCache models pkg/modelscache/tokens.go, the cache of
-- token verdicts in front of the token store, which keeps its entries in an Lru. Denial: that the
-- cache holds no token for a hash. Refusal: the answers then. Staleness: why a token is served. The
-- inner store's answers are arguments of the calls, and so is what other goroutines do meanwhile.
--
-- Loops models pkg/loopdetection. Cycle: strategy_cycle.go. Occurrences: the count of repetitions.
-- Soundness and Completeness: what is reported. The inner loop runs on fuel, the number of keys, which
-- is enough because a pattern is not empty; so does the eviction of Lru, on the length of the list.
-- Exact: strategy_exact.go. Streaks: what it reports.
--
-- Race models the race of the upstream attempts of one request, pkg/proxy/race_request.go and
-- race_coordinator.go. Request: upstreamRequest, one step per method; its buffer is one of
-- StreamBuffer. Coordinator: raceCoordinator with Start, spawn and the cancellations. Rows: what
-- manage reads of the attempts, and WaitForWinner. Failover: the rotation of credentials, which asks
-- the engine of CredentialLb, and the advance along the chain. Manage: one tick of manage, as a
-- decision that is then performed. Events: the two deadlines, and the whole race as a sequence of
-- events, an arm of manage's select or what an executor does to its row. FinalError:
-- GetCommonFailureStatus and GetFinalErrorInfo, also for the copies that expect the lock held.
--   Shape is the abstract view, which attempts were spawned and how often a model was rotated, with
--   the steps it may take; Refines, Steps and Decisions lead to the refinement. Budget, Window, Names
--   and Bounds: invariants of the abstract view and the bounds that follow. Progress and Liveness:
--   that a failed race does not stall. Channels, Waiting and Settled: the winner, the wait for it and
--   the reach of the hard deadline. Cancelled, Winner, Deadline, Plans, Status and Rules: the single
--   operations. An attempt is named by its index, a closed channel is a flag, and log, published
--   events and statistics are left out.
--
-- Failure models the tests on errors in pkg/providers/interface.go and pkg/models/errors.go, and in
-- Reason the classes of pkg/proxy/race_reason.go. A Go error is its text, the ProviderError in its
-- chain, and what errors.Is and errors.As say of the standard library's errors. Classes: the statuses
-- that a class stands for. The expressions that hide secrets in a reported text are a parameter.
--
-- Models models pkg/models. PeakHours: peak_hours.go, with offsets in hundredths of an hour. Clock:
-- times as text. Window: the window around the clock. Groups: the rules of group.go. Membership: which
-- groups they accept.
--
-- RequestStore models the request log of pkg/store/memory.go, one step per method. Size: the logs and
-- the bytes they are charged. Bounds: both limits, over every sequence of calls, in which a caller may
-- also change a log it has handed over. Eviction: what Add and the budget leave. The cached list of
-- application tags is carried but not computed.
--
-- Support holds the names and lemmas that the components share: Boolean tests, lists measured by
-- native numbers, text, signed integers, and the association lists that stand for Go maps.
-- The Examples of a component run its definitions and apply its theorems to concrete inputs.
--
-- Not modelled: HTTP handlers and the executors of attempts, JSON and SSE parsing, translators and
-- normalizers, provider clients, the balancing of model groups, the cache of models, the other loop
-- detection strategies, the database and its SQL, the loading of the configuration, events,
-- authentication, the user interface and the side services. They are I/O, or are left for later.
pub mod Support
pub mod CredentialLb
pub mod Failure
pub mod HashCache
pub mod Ultimate
pub mod RequestStore
pub mod StreamBuffer
pub mod Models
pub mod MonitoredReader
pub mod Race
pub mod Loops
pub mod TokenCache
pub mod Lru
