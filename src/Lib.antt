-- ===== src/Lib.antt =====
-- The decision logic of an incident management system: a backend that takes in signals of failing
-- components, collapses bursts of them into work items and guides each work item through its life
-- cycle to a root cause analysis, and a browser client for it.
--
-- The parts and their files. A path is from the repository's root.
--
--   Types      the enumerations of backend/prisma/schema.prisma.
--   Text       the language's strings as UTF-16 code units: comparison, trim, includes.
--   State      backend/src/domain/state. A state object holds the entries that lead out of it,
--              `graph` is createWorkItemStateGraph, `transition` the method of that name, and
--              InvalidTransitionError a value. State/Lifecycle has the graph's laws.
--   Rca        backend/src/domain/rca. `validate_rca`, `rca_close_guard` and `calculate_mttr` are
--              validateRca, createRcaCloseGuard and calculateMttr. Rca/Laws says what a valid
--              candidate is, Rca/Mttr what the time to repair is; Rca/Candidate is toRcaCandidate of
--              the workflow service. Rca/Form is frontend/src/features/rca: rcaValidation.ts and the
--              request body of RcaForm.tsx; Rca/Form/Agreement sets it against the server.
--   Buffer     backend/src/services/ingestion/buffer.ts. Buffer/Ring is RingBuffer, Buffer the class
--              SignalBuffer. Buffer/View is the abstract view, one list of signals per severity,
--              that Buffer/Evict, Buffer/Submit, Buffer/Lanes, Buffer/Drain and Buffer/DrainAll
--              speak of; Buffer/Watermarks is about its state, Buffer/Ledger about its counts of
--              drops, and Buffer/Stats is getStats.
--   Retry      backend/src/utils/retry.ts.
--   Postgres   prismaErrors.ts, withPostgresRetry.ts and errors.ts of
--              backend/src/repositories/postgres; Postgres/Tried says what a call under
--              withPostgresRetry can come to.
--   WorkItems  backend/src/repositories/postgres/workItemRepository.ts. `transition_state` and
--              `submit_rca` are transitionState and submitRca, `transition_once` and `submit_once`
--              the transactions that these try; `find_by_id` is findById. WorkItems/Reading,
--              WorkItems/Transitions and WorkItems/Closing are about them, and WorkItems/Memory is a
--              database that they can run on.
--   Workflow   backend/src/services/workitems/workflowService.ts: `transition_work_item` and
--              `submit_incident_rca`, with Workflow/Transition and Workflow/Submission about them and
--              Workflow/Guarded for what a candidate that passes the guard holds.
--   Alerting   backend/src/domain/alerting: severities and escalation, the strategies in
--              Alerting/Strategies, AlertStrategyRegistry in Alerting/Registry.
--   Worker     backend/src/workers/processBatch.ts; Worker/Counts is about counting in a Map,
--              Worker/Batch about the pipeline.
--   Debouncer  backend/src/services/ingestion/debouncer.ts. Debouncer/Laws has what is relied on and
--              the rules for calls that may throw, Debouncer/FromStore is about resolveFromStore,
--              Debouncer/Links about resolve.
--   Bucketing  backend/src/repositories/metrics/bucketing.ts.
--   RateLimit  backend/src/rateLimit/tokenBucket.ts: `check_token_buckets` is the script with the
--              function around it. RateLimit/Bound is about what a bucket admits over time,
--              RateLimit/Waiting about the seconds that a limited caller is told.
--   Metrics    backend/src/utils/metrics.ts. Metrics/Recorder is about the worker's recorder and its
--              histogram, Metrics/Percentile about percentiles, Metrics/Ticks about the reporter.
--   Ingest     backend/src/api/routes/signals.ts: `handle_ingest` is handleIngest and `receive` what
--              it shares with the bulk test. Ingest/Validation is signalValidation.ts,
--              Ingest/Synthetic the bulk test with syntheticSeverity.ts. Ingest/Submit, Ingest/Answer
--              and Ingest/Handle say what a request leaves behind and how it is answered.
--   Dispatch   backend/src/services/alerting: `dispatch` and `dispatch_escalation` are the methods of
--              AlertDispatcher, with the claims of suppression.ts. Dispatch/Framing is the alert's
--              text and its targets, with notifierRegistry.ts; Dispatch/Scheduler is
--              escalationScheduler.ts. Dispatch/FanOut says what is sent, Dispatch/Claims and
--              Dispatch/Once how often, Dispatch/Overdue which items a tick escalates.
--   Dashboard  backend/src/repositories/redis/dashboardCache.ts and the incident reads of
--              backend/src/services/dashboard/dashboardProjection.ts. Dashboard/Score is about the
--              order of the sorted set, Dashboard/Coherence sets what is read
--              through the cache against the database.
--   Signals    insertManyIdempotent of backend/src/repositories/mongo/signalRepository.ts;
--              Signals/Each is an insertion under a unique index, Signals/Insert what is stored.
--   Tests      runs at concrete inputs, and each theorem with hypotheses applied to such an input.
--
-- How they interact. A request to the ingestion route is parsed, put to the rate limiter and
-- submitted signal by signal to the buffer, with the process's counters beside it. The buffer's
-- drain hands batches to a sink, which is the queue in front of the worker; the worker asks the
-- debouncer for a work item per signal and writes counts through the repository. The workflow
-- service asks the state graph, whose entry to CLOSED is guarded by the RCA validation, and then
-- runs one of the repository's transactions.
--
-- What is a parameter. PostgreSQL is the record `Database` of WorkItems: the statements that the
-- repository issues, with their documented behaviour in `Lawful`, which WorkItems/Memory satisfies.
-- The dispatcher's Redis, endpoints and query are the record `AlertWorld` of Dispatch, the
-- dashboard's Redis and queries `DashboardWorld` of Dashboard, MongoDB the record `Collection` of
-- Signals. Redis and the debouncer's view of PostgreSQL are the record `Stores` of Debouncer; every
-- call of it may throw, and nothing is relied on of Redis but that it leaves PostgreSQL alone. The
-- worker's collaborators are the record `ProcessBatchDeps`. The parsing and printing of dates and
-- numbers that the language does are arguments: `new_date`, `number_text`, `to_iso_string`; so are
-- the zod schemas (`safe_parse`) and random ids (`uuids`).
--
-- Concurrency. Where an operation waits, other workers run: `between` is what they do to the
-- database between the read and the guarded write of a workflow operation, `others` what they do
-- before each try of a call of PostgreSQL, at each wait of the debouncer and while the ingestion
-- route awaits Redis. What becomes of each try, an answer, a refusal or a lost answer, is a script
-- of faults. A theorem that limits them says how.
--
-- Numbers. Times are integers, milliseconds from the epoch; an Invalid Date is `none`. The buffer's
-- marks and ceilings are exact fractions where the code computes with doubles; a bucket's level
-- counts thousandths of a token, which is exact for whole refills per second. The login limiter's
-- refills of 0.5 and 0.1 per second are outside that.
--
-- Fuel. drainAll takes the list of the sink's answers, one for each time that the clock is read
-- before the deadline, and drain_all_empties says how many are enough. The polls before a deadline
-- are a number; retry's loop runs on the attempts that are left.
--
-- What is not modelled. The other HTTP routes, authentication, configuration, the queue, the
-- metrics pipelines, logging and rendering do I/O around this logic. Nor are the signal
-- repository's other operations, the dashboard's lists of closed incidents, signals and
-- transitions, or what the sorted set answers against the database's listing. Of the modelled
-- files: jitter and the retry callback, the drain timer of the buffer, the repository's other
-- queries, the debouncer's one-signal path, and the texts of errors, which are constructors.
mod Base
pub mod Types
pub mod Text
pub mod State
pub mod Rca
pub mod Buffer
pub mod Retry
pub mod Postgres
pub mod WorkItems
pub mod Workflow
pub mod Alerting
pub mod Worker
pub mod Debouncer
pub mod Bucketing
pub mod RateLimit
pub mod Metrics
pub mod Ingest
pub mod Dispatch
pub mod Dashboard
pub mod Signals
mod Tests
