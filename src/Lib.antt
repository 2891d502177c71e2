-- ===== src/Lib.antt =====
-- The backend of NetMonitor (backend/internal, in Go): what polls the devices of a network, decides
-- when alerts are opened, suppressed, notified and escalated, buffers metrics, limits login attempts,
-- keeps sessions, checks access, tells the web clients and checks the hosts that it connects to.
--
-- How the parts interact. The scheduler's control gives the dispatcher the devices and reconciles
-- them with the database. The dispatcher keeps a heap of the times of the next polls; what is due it
-- hands to the worker pool as jobs in three queues, and a job that finds its queue full is tried
-- again soon. A worker polls the device and hands the result back to the control, which tells the
-- dispatcher and the state tracker how the device is, and submits the result to the pipeline. The
-- pipeline stores, broadcasts and evaluates results in batches; it stores them through the metric
-- buffer where there is Redis. The alert engine evaluates the rules on each result, asks the campus
-- topology and the maintenance windows whether an alert is suppressed, and queues the notifications
-- of the alerts that it opens. The login limiter, the sessions and the access checks stand by
-- themselves, in front of the handlers.
--
-- Common: tests, lists, signed 64-bit integers (Common/Int.antt) and Go maps as association lists
--   (Common/Assoc.antt), which the parts share.
-- Scheduler/Types: the data that the parts of backend/internal/scheduler exchange.
-- Scheduler/DeviceStateTracker: device_state_tracker.go. record_success is RecordSuccess, and so on;
--   Counts, Backoff and Runs are about the counts, the back-off and sequences of polls.
-- Scheduler/WorkerPool: worker_pool.go. Queues has Enqueue and the queues' metrics. Workers has the
--   loop of `worker` and executeJob as a machine with a phase between any two accesses to a channel, a
--   counter or the result handler; a schedule is a list of events, each a call of Enqueue, a step of
--   one worker, the end of a poll, the delivery of a result, or Stop.
-- Scheduler/PollDispatcher: poll_dispatcher.go. Defs has the entries and the calls (upsert is Upsert,
--   record_failure is RecordFailure), Dispatch has dispatchDue and rescheduleTimer; Schedule and
--   Invariant are about the heap and the map, Calls about sequences of calls, Loop about dispatchDue.
-- Scheduler/ResultPipeline: result_pipeline.go. Batch has processBatch, whose writes, broadcasts and
--   calls of the alert engine are effects in their order; Run has the loop, Submit and Stop.
-- Scheduler/Control: scheduler.go. scheduleDevice, unscheduleDevice, reconcile and handlePollResult
--   are in Control, one poll (collectAndReturnResult) in Collect; Actions and Late are about
--   sequences of these.
-- Campus/Topology: campus/topology.go. check_suppression is CheckSuppression, ancestors_from the walk
--   up of GetDeviceDependencies, roots_among and children_of the forest of BuildDependencyTree.
-- Campus/Maintenance: campus/maintenance.go. is_under_maintenance is IsUnderMaintenance, on the
--   windows that its query returns.
-- Engine: backend/internal/engine. Types has the data; Conditions is alert_conditions.go, Suppression is
--   suppression.go, Store the statements of database/postgres.go and database/postgres_alertrules.go
--   on the tables of the engine. alert.go is in Effects (upsertState, recordHistory, sendNotifications
--   and so on), Firing (fireAlert), Alerts (handleConditionMet, handleConditionCleared), Rules
--   (evaluateRule, ProcessMetric, the absence loop) and Notifications (deliverNotifications).
--   System puts it together with the acts of an operator (handlers/alerts.go) and the workers.
--   Log is what the engine promises, as steps on a log of alerts and a queue; Opening is about when
--   an alert is opened, Silent about rules that are not resolved automatically, and Snapshots about
--   the writes of pending states. RuleCache is rule_cache.go, Escalation is escalation.go and
--   Contacts is contacts.go.
-- Cache/MetricBuffer: cache/metric_buffer.go. push is Push, flush and drain are flush and drain.
-- Netutil/HostValidation: netutil/host_validation.go. validate_host is ValidateHost and check_addr is
--   checkAddr.
-- Websocket/Hub: websocket/hub.go. run_one is a turn of Run, connect and disconnect are what ServeWS does
--   with the map of clients, and scope_filter is the filter that server/server.go sets.
-- Auth/SessionStore: auth/session.go. set is Set, get is Get and delete is Delete.
-- Auth/LoginLimiter: auth/login_limiter.go. allow_in_memory is allowInMemory, cleanup one round of
--   cleanupLoop.
-- Access: auth/middleware.go, rbac/rbac.go and rbac/scope.go. A middleware is a function from the
--   claims of a request to its answer; require_permission is RequirePermission, and so on.
--
-- Integers and time. Identifiers, counters and times are natural numbers; times are nanoseconds, and
-- the reading of the clock is an argument. Where the source multiplies durations in int64, the model
-- wraps at 2^64 as Go does. A float64, and other data that is only copied, is a type parameter.
--
-- Fuel. dispatch_loop takes fuel; the number of devices in the heap plus one is enough where the
-- intervals do not overflow. check_from takes fuel; the number of rows plus one is always enough.
-- ancestors_from takes fuel; the rank of the device plus one is enough where parents form no cycle,
-- and no fuel is enough on a cycle. All other loops are structural.
--
-- Concurrency. Each method that holds the mutex is one step, and so is each evaluation of a rule on a
-- device, which holds the lock of its key. The worker pool and the pipeline, which share channels, the
-- alert engine with its operators and the goroutines of escalations are modelled by lists of events in
-- any order, and the loads of the cache of rules by a step relation.
--
-- Errors. A call of the database or of a service that can fail has its outcome as an argument: Faults
-- for an evaluation of a rule, Weather for a flush of the metric buffer, Answers for a step of an
-- escalation, `fails` for the queries of the topology and for Redis under the sessions.
--
-- Not modelled: most HTTP handlers and the server, most of the database, the collectors and the
-- discovery, the services that send notifications, the statistics of baselines and the health scores,
-- the ingestion of flows, logging, reports and backups, and the clients in other languages: they are
-- input and output, statements of SQL, or floating-point statistics. Redis, the collectors, JSON and
-- the notifier are parameters, or effects, of what is modelled. container/heap is represented by what
-- the code relies on: its element 0 has the least time.
pub mod Access
pub mod Auth
pub mod Cache
pub mod Campus
pub mod Common
pub mod Engine
pub mod Netutil
pub mod Scheduler
pub mod Websocket
