-- ===== src/Lib.antt =====
-- Kerberon: an on-call paging server that keeps all of its state in one SQLite file. Alerts come in,
-- are routed and grouped into incidents, and an incident climbs the rungs of an escalation policy
-- until somebody acknowledges it, it resolves, or the rungs run out.
--
-- How the parts interact. `Ingest` of internal/group/group.go routes a batch of alerts
-- (internal/route/route.go), gives each its fingerprint and its group key (internal/alert/alert.go)
-- and opens an incident or joins the one that is open for the key. Everything that is to happen
-- later is a row in the table of timers. The scheduler (internal/timer/timer.go) reads the earliest
-- rows, runs the handler of one that is due, and marks it, in one transaction. The handlers are
-- those of the grouping engine (the window before the first page, the grace before a resolution) and
-- of the escalation engine (internal/escalate/escalate.go): a rung asks the schedule
-- (internal/schedule/schedule.go) who is on call, puts pages in the outbox and sets the next rung.
-- The dispatcher (internal/notify) claims pages and sends them, through a breaker for each channel.
-- Heartbeats (internal/heartbeat/heartbeat.go) are switches that raise an alert when they are not
-- pinged. The functions on the tables are those of internal/store.
--
-- Files.
--   Base: the library's names, tests on numbers, lists, sorting, bytes.
--   Core, Policy: the enumerations and records of internal/core/core.go, and internal/escalate/policy.go
--     (Policy, Step, Target, StepAt as `step_at`, Exhausted as `exhausted`).
--   Store: `Tx` is a transaction, `Table` the statements on a list of rows, and one file stands for each
--     of timers.go, incidents.go, alerts.go, notifications.go, heartbeats.go, overrides.go and
--     retention.go; a function keeps its name (InsertTimer is `insert_timer`). `Key` is the text under
--     the hash of IdempotencyKey. `Keeps` and `Leads` are the rules for invariants and for
--     postconditions of transactions.
--   Timer: internal/timer/timer.go (step, execute, Register, Schedule, Cancel, defer_ as `defer`).
--   Escalate: internal/escalate/escalate.go (Begin, handleEscalate, fireStep, expire, Acknowledge,
--     handleAckTimeout).
--   Alert, Route: internal/alert/alert.go, internal/route/route.go; Alert/Normalize is normalize.go.
--   Group: internal/group/group.go (Ingest, applyAlert, openIncident, attachToIncident and the two
--     handlers).
--   Notify: internal/notify/breaker.go, channel.go and dispatcher.go.
--   Heartbeat: internal/heartbeat/heartbeat.go (SweepOnce, Sync).
--   Schedule: internal/schedule. Resolver is At, Intervals and Gaps; Zone is what package time does with
--     an offset; WallClock is wallclock.go (Resolve, NextDaily, NextWeekly), Restriction restriction.go,
--     ClockText the parsers, Layers a layer's nextHandoff, prevHandoff, position, userAt and boundaries,
--     Build is FromConfig, and Coverage coverage.go. `resolver_layer` gives a built layer to the resolver,
--     with nobody and no boundary where Go panics; Panics says where that is, and `on_call` and the
--     coverage report panic there.
--   Ack: the tokens and links of internal/ack/ack.go; Url is the escaping of a path segment.
--   Config: internal/config. Model has the records, defaults and lookups of config.go, Validate is
--     validate.go with a constructor of Problem for each message, and Expand is expand.go.
--   Escalate/Targets, Reach: internal/escalate/adapters.go (ResolveTargets, Destination), between the
--     escalation, the configuration and the schedules.
--   Api: the handlers of internal/api/ack.go and heartbeat.go that change the state; Api/Intake is
--     internal/ingest/ingest.go.
--   Clock: the fake clock of internal/clock/fake.go. A full buffer drops the tick.
--   System: the wiring of cmd/kerberon/main.go, the dead-letter hook included, and sequences of calls:
--     alerts, passes of the scheduler, answers and drains of the outbox.
--   Invariant: what every sequence of calls keeps, from the single statements up.
--   Examples: concrete inputs.
--
-- How the code is read. The database is a record of lists of rows, in the order of their ids; a new
-- id is the successor of the largest one. A transaction is a function from the database to an error
-- or a value and the next database; the write pool has one connection, so transactions follow one
-- another, and an error drops what its transaction did. Errors of the driver and failures to decode
-- a row are left out, since the model's rows are values. The constraints of the schema that the code
-- relies on are in the statements: the partial unique index on open incidents, the unique key of the
-- outbox, the foreign keys.
--
-- A time is a number of nanoseconds, 0 for Go's zero time, and a duration a number of nanoseconds
-- that is not negative; a date is a number of days. A zone has a first offset and a list of changes,
-- where an offset is counted east of UTC and one day on, so that it is a natural number. A column
-- keeps whole seconds, and reading it back gives the start of the second. The clock is read once for
-- an operation. Ids and counts are natural numbers, without the bound of 64 bits. A string type of
-- Go is a data type with one more constructor, `other`, for the strings outside the constants. JSON
-- stands as the value that it encodes: an absent text, one that does not decode, or one that does.
--
-- Parameters: the hash behind fingerprints and keys, the keyed hash of a token, who is on call, the
-- address book, the channels' `Send`, the jitter, the sink of the heartbeats, the zones that
-- `time.LoadLocation` knows, `url.Parse`, `time.Parse`, the environment's variables, the reader of
-- overrides. The workers of a dispatch and the goroutines take their turns. Log lines are left out.
--
-- Bounds. `Ingest` runs on fuel that is the number of routed alerts, and a chunk takes at least one,
-- so it is enough. `VerifyAny` tries at most 257 steps. The bisection for a change of offset halves
-- 26 hours 17 times, which is below a second. The walks over handoffs have as much fuel as the
-- instant or the window has nanoseconds, and each handoff is later than the one before. The fake
-- clock has fuel for a tick in every nanosecond of each waiter. A decimal number has at most 20
-- digits. Everything else recurses on a list.
--
-- Not modelled: decoding the configuration's YAML and its reload, decoding JSON, the routing of
-- requests and the pages, the senders of the channels, opening and migrating the file, the daily
-- maintenance, the texts of error messages and their lines, and the bound on a stored error text.
pub mod Base
pub mod Config
pub mod Clock
pub mod Core
pub mod Policy
pub mod Store
pub mod Timer
pub mod Escalate
pub mod Alert
pub mod Route
pub mod Group
pub mod Notify
pub mod Heartbeat
pub mod Schedule
pub mod Ack
pub mod Api
pub mod System
pub mod Invariant
pub mod Examples
