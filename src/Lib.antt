-- ===== src/Lib.antt =====
-- A model of the core of Open LangGraph Platform, a server that runs LangGraph agents and streams
-- their events to clients, with the theorems that make it correct. Paths are below
-- src/agent_server/.
--
-- The run of a graph produces raw events. For each of them the run loop calls the streaming
-- service, which puts it into the broker of the run (a bounded queue that one client stream
-- consumes) and appends it to a batch that is stored in the table run_events. A client's stream
-- first replays the stored events since the last event id that the client has seen, then sends the
-- live ones from the broker, each converted to a server-sent event. Calls to other services go
-- through a circuit breaker and are retried with exponential delays.
--
-- Around the runs stand the services of the platform, each on its tables: the organizations with
-- their members and keys, the assistants with their versions, permissions and roles, feature
-- flags, the limits of requests and their rules, and the outbox from which the records of the
-- audit log are moved, masked as they are written. A service is modelled on its own tables; what
-- it asks of a service that the list of files does not name (whether a graph is known and loads)
-- is an argument, and a call of the cache that it makes is recorded.
--
-- - Prelude: shared notation, lists, texts, integers
-- - Dict: Python dicts with string keys
-- - Value, Serializer: the values of events; core/serializers/general.py
-- - CircuitBreaker: core/resilience.py: CircuitBreaker (Invariant, Traces)
-- - Retry: core/resilience.py: RetryPolicy, _compute_backoff_delay, retry_async (Delay, Attempts)
-- - EventId: utils/sse_utils.py (RoundTrip)
-- - Broker: services/broker.py: RunBroker; its schedules (System), the queue (Queue), what is
--   delivered (Delivery) and the consumer (Consumer)
-- - BrokerManager: services/broker.py: BrokerManager (Lookup, Cleanup)
-- - EventStore: services/event_store.py (Sort, Replay, Writes)
-- - Converter: services/event_converter.py and the constructors of core/sse.py (Agreement)
-- - Streaming: services/streaming_service.py: state, batches and counters; Storing (Contents,
--   Batches), Producer (Cancel, Cleanup), Client (Live), Interrupts
-- - Runs: api/runs.py: rows and status writes; Execute (the task: Rounds, Stores, Ends, Moves),
--   Endpoints (Create, Control, Delete, Moves) and Schedule, their interleaving (Lossless), with
--   what every step keeps in Keeps
-- - RateLimiter: core/rate_limiter.py (Cleaning, Window, Failure)
-- - PermissionSet, Permissions: services/permission_service.py and SYSTEM_ROLES of models/rbac.py
--   (Resolve, Cached)
-- - AuditOutbox: services/audit_outbox_service.py: rows and records; Retries (LRURetryCache),
--   Mover (_move_batch), Rows (the selection), Batch (its loop), Kept (what becomes of the rows),
--   Drain (_mover_loop)
-- - RateLimitRules: models/rate_limit_rules.py and services/rate_limit_rule_service.py: Glob
--   (fnmatch), Service (the operations), Resolve (the choice of a rule), Chosen and Unmatched
--   (what it answers)
-- - RateLimitEnforcer: core/rate_limit_enforcer.py: the sliding window; Sliding (the ideal
--   limiter) with Refine, Admitted (the bound), Check (check_rate_limit) and Refusals
-- - FeatureFlags: models/feature_flags.py and services/feature_flag_service.py: Evaluation,
--   Service and Overrides (the changes), Formula and Enabled, Rollout and Refresh
-- - Masking: utils/masking.py (Masked: what is left of sensitive fields)
-- - UrlValidator: utils/url_validator.py (Safe: what an accepted URL is known to be)
-- - Organizations: services/organization_service.py and models/organization.py: Slug and
--   WellFormed (generate_slug), Owners (the changes of members), Owned, Managers and Reachable
--   (who owns what), Reading (look-ups), Keys and Revoked (API keys)
-- - Assistants: services/assistant_service.py, models/assistants.py and core/orm.py: Create,
--   Update, Reading (lists), Versions and Steps (the invariant), Reachable, Rollback and
--   Unreadable
--
-- State is passed explicitly: a method that mutates its object takes the record and returns it.
-- The clock, the environment and random samples are arguments; so is what the database answers, as
-- a field of the state where a store is awaited (next_write of Streaming.Service). A coroutine
-- that waits is a value (Put.waiting), and what other coroutines do meanwhile is a list of actions
-- (Broker.System, Runs.Schedule), over which the theorems quantify. Strings are lists of code
-- points. Values that a graph yields are the type Value: JSON with tuples; Python objects of other
-- classes are outside of it. Numbers are natural numbers; integers that may be negative are the
-- type ℤ of Prelude.Int. Durations in Retry are whole milliseconds and jitter is in thousandths,
-- so that delays are exact.
--
-- Recursion is structural, but for two loops. The digits of a number are taken on fuel n + 1,
-- which EventId.RoundTrip shows is enough. The retry loop counts the attempts that are left, which
-- are max(1, max_attempts) in all.
--
-- Not modelled: the web framework, the ORM and Redis as such, the tasks that repeat clean-ups,
-- logging and tracing, and the services that the list of files does not name. An SQL statement is
-- the function on the table that it denotes; rows of equal order keep the order of the table.
mod Prelude
mod Dict
pub mod Assistants
pub mod AuditOutbox
pub mod CircuitBreaker
pub mod Retry
mod Value
mod Serializer
pub mod EventId
pub mod Broker
pub mod BrokerManager
pub mod EventStore
pub mod Converter
pub mod Streaming
pub mod Organizations
pub mod UrlValidator
pub mod Masking
pub mod FeatureFlags
pub mod RateLimitEnforcer
pub mod RateLimitRules
pub mod Runs
pub mod RateLimiter
pub mod PermissionSet
pub mod Permissions
