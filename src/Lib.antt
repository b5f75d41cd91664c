-- ===== src/Lib.antt =====
-- LinkAlive: the logic that watches URLs and tells of incidents.
--
-- LinkAlive checks registered URLs at intervals, decides from consecutive results whether a monitor is
-- down, opens and closes incidents, and queues notifications. The scheduler turns due monitors into
-- scheduled checks, the worker runs them, the domain package decides on health and on the next check,
-- the worker's network guard holds failures back while its own connection is in doubt, and the
-- retention job deletes old rows and encrypted values that are no longer needed.
--
-- Parts and files
--   Common: results of code that throws, lists, texts of UTF-16 code units, and tests on numbers.
--   Domain.Types: packages/domain/src/types.ts, each constant object as a data type.
--   Domain.StateMachine: packages/domain/src/state-machine.ts. applyCheckResult is apply_check_result
--     (assert_state, assert_transition_input, then decide_result), transitionLifecycle is
--     transition_lifecycle, resetForConfigChange is reset_for_config_change. Below it, Events has the
--     sequences of events, and Invariant, Ledger, Applies, Thresholds and History the theorems.
--   Domain.Scheduling: packages/domain/src/scheduling.ts, a function for each of its functions. Slots
--     has the theorems on the slots of a schedule, Jitter those on the first check.
--   Domain.Notifications: packages/domain/src/notifications.ts, keys and the recovery plan.
--   Database.Checks: the row of a scheduled check, from packages/database/prisma/schema.prisma.
--   Scheduler.Store: apps/scheduler/src/store.ts, each statement on the tables as a function, and
--     createDueChecks over the answer of its SELECT. Scheduler.Due has its theorem.
--   Scheduler.Dispatcher: apps/scheduler/src/check-dispatcher.ts and scheduler-service.ts.
--   Worker.CheckProcessor.Claims: the statements of apps/worker/src/check-processor.ts on that row.
--   Worker.CheckProcessor.World, Recovery and Commit: the rows of one monitor and what persist,
--     applyIncidentEffect, createOutbox and createRecoveryOutbox of that file do to them. OutboxWrites
--     and Coherence lead to the theorem in Persist, and Outbox, Returns and Totality to that in
--     Succeeds. Process has the sequence of process: the read, the claim, the run with its retry, and
--     the commit; Redelivery has its theorem.
--   Ledger: the statements on scheduled checks as one step relation on the tables, which any number of
--     schedulers and workers take in any order; of a commit, the step has what it does to the row of the
--     check, which it has read without a lock. Rows has what a row keeps, Consistency the invariant, History what never changes again,
--     and Leases and Exclusion that a claim is exclusive.
--   Monitoring.Types: the result of a check of packages/monitoring/src/types.ts.
--   Monitoring.Errors and Monitoring.UrlPolicy: packages/monitoring/src/errors.ts and url-policy.ts.
--     Ipv4 and Ipv6 have the readers of addresses and the blocked ranges, Urls the tests on a URL and
--     resolveSafeDestination; Parts, Dotted and Ranges lead to the theorem of Addresses.
--   Monitoring.Checker: packages/monitoring/src/checker.ts. Config has normalizeConfig, Failures has
--     classifyUnknownError, Encoding the headers, Keyword the loop of inspectKeyword over a body (its
--     theorem is in Prefix), Session the variables of checkUrl, Requests and Hops its loop, and Check
--     its catch block and results. Ends, Leases and Settled lead to the theorems of Results.
--   Worker.NetworkPolicy and Worker.NetworkGuard: apps/worker/src/network-policy.ts and
--     network-guard.ts. assess takes the answers of its calls as arguments, commit_inspection is the
--     transaction of inspectFresh as a function of the tables and of what its first read has seen.
--   Worker.Delivery: apps/worker/src/notification-order.ts and secret-lifecycle.ts.
--   Worker.Outbox: apps/worker/src/outbox-dispatcher.ts, notification-processor.ts, retry.ts and
--     notification-payload.ts. Rows has the tables, Statements, Dispatch and Scan the dispatcher,
--     Claims, Success, Failure and Process the processor, and Payload the JSON of a notification. Steps
--     has the statements as one step relation that any number of dispatchers and processors take;
--     Invariant, with Evolution, Quiet, Arrivals, Attempts and Claiming below it, leads to the theorems
--     of Reached, and Bounded, Retries and RoundTrip have those on single runs.
--   Database.Retention: packages/database/src/retention-plan.ts, retention-config.ts and
--     retention-runner.ts. Plan and Redaction read each SELECT as a Boolean test of a row
--     against the tables, and each DELETE as a step on the tables; Config has readRetentionConfig, and
--     Runner has runRetention over a connection.
--
-- Numbers and times
--   Integers are natural numbers. A Date is a number of milliseconds from 1970 on, or invalid where
--   the source tests for that; dates end at 8.64e15 as in the language. Arithmetic stays exact below
--   2^53, and the source's tests for safe integers are kept. The hash of the jitter wraps at 2^32.
--
-- Errors and calls
--   Code that throws returns a result. A call of the database or of the network is a parameter: the
--   connection of Database.Retention.Runner is a record of what its calls do, with the two laws of
--   MySQL that the code relies on (a LIMIT bounds a SELECT; COMMIT and ROLLBACK end a transaction),
--   and the queue of Scheduler.Dispatcher one of what BullMQ's calls do (a job that was added is there).
--   encodeURIComponent is a parameter with its documented properties, and the test of a database URL
--   for its protocol is one without any. The loop over batches is
--   structural in the number of batches that may follow, which the source counts up to
--   maxBatchesPerStep, so no fuel is used. The loop over the pages of a dispatch has one more unit of
--   fuel than its scan budget, which is enough since a page that is not empty is counted.
--   The URL class, isIP and the resolver of Monitoring.UrlPolicy are parameters without laws, and so is
--   the calls of Monitoring.Checker: the resolver, the limiter of destinations, the transport, the
--   cookie jar, the decompressors, the TextDecoder and the clock; a body is the sequence of chunks that
--   arrive. The loop over redirects is structural in the number of redirects that the limit leaves.
--   The provider of Worker.Outbox.Process is a record of its calls with no law, and so is the queue of
--   Worker.Outbox.Dispatch. Whether the transaction of markSent goes through is an argument.
--
-- Not modelled
--   Prisma, BullMQ, sockets and Telegram are third-party. Of the network guard, the cache of the
--   snapshot and the summary of an outage are left out, as are the probe results that are stored
--   for display and the channels of an outage. In the ledger, creation times are left out, and
--   the order and the locks of the scheduler's SELECT, of which only what its WHERE says is used.
--   Of retention, row order, locks and the text of a report's dates are left out. Of the commit
--   of a result, payload texts, message ids and creation times are left out. In the dispatch of
--   checks and of notifications, errors of the database are left out. Of the outbox, the dedupe key
--   and the display name of a channel are left out, the message id of a late recovery and toISOString
--   are parameters, and numbers in JSON are natural numbers; the jitter of a retry is computed exactly.
--   Of the checker, the transform that bounds a compressed body stands with the decompressors, which
--   are parameters, and closing a response has no effect but its error; of the destination of a check,
--   the time limit of DNS is left out.
--   The API and the web application are not part of this development.
pub mod Common
pub mod Domain
pub mod Monitoring
pub mod Database
pub mod Worker
pub mod Scheduler
pub mod Ledger
