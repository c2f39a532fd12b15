-- ===== src/Lib.antt =====
-- A model of the core of chimpbase: the engine that runs workers, cron schedules, subscriptions and
-- workflows over one SQL database, the tables of that database, the storage of blobs, the calls
-- between the nodes of a mesh, and the comparison of the contracts of workflows.
--
-- The parts and how they interact. An adapter (packages/bun/src/sqlite_adapter.ts, of which the ones
-- for Deno and Node are near copies) turns each operation of the engine into SQL statements. The
-- engine (packages/core/engine.ts) claims due jobs and schedules from the tables, runs the code that
-- the application registered inside a transaction, publishes the events of a transaction when it
-- commits, and reports the outcome to the tables. Cron expressions are parsed and searched by
-- packages/core/cron.ts. The client of the engine for blobs keeps their metadata in tables of the adapter
-- and their bytes in a driver. The mesh (packages/mesh) lets one node call the actions of the others.
--
-- Which file models what.
--   Text              strings as lists of UTF-16 units: trim, split and the like
--   Cron/Calendar     what `Date` does in UTC, for the years from 1970 on
--   Cron/Search       `matchesDay` and the five loops of `computeNextCronFireTime` (packages/core/cron.ts)
--   Cron/Field        `parseCronField`, `parseCronRange`, `parseRawCronValue`, `normalizeCronValue`,
--                     `parsePositiveInteger` (packages/core/cron.ts)
--   Cron/Expression   `parseCronExpression` with its cache, `computeNextCronFireTime`, and
--                     `resolveNextCronExecutionWindow` (packages/core/engine.ts)
--   Queue             the table `_chimpbase_queue_jobs`: `queueEnqueue`, `claimNextQueueJob`,
--                     `completeQueueJob`, `markQueueJobFailure`, `getQueueJobPayload`
--   Schedules         the tables `_chimpbase_cron_schedules` and `_chimpbase_cron_runs`: claim, advance,
--                     release, delete and upsert of a schedule, `insertCronRun`
--   Engine            the fields of `ChimpbaseEngine` that hold its state, `runInTransaction`, `publish`
--   Engine/Dispatch   `dispatchSubscriptions`, `enqueueSubscriptionDispatchJobs`, `handleCommittedEvents`
--   Engine/Jobs       `processNextQueueJob`, `processClaimedQueueJob`, `failQueueJob`,
--                     `getClaimableQueueNames`, `processCronQueuePayload`
--   Engine/Crons      `processNextCronSchedule`
--   Engine/Drain      `drain` and `drainInPriorityOrder`
--   Workflow, Engine/Workflows  the tables of workflow instances and signals, the lease, and
--                     `runWorkflowInstanceUntilSuspended` with steps and directives
--   Mesh              the peers that a node knows: `MeshPeerCache` (packages/mesh/src/discovery.ts)
--   Mesh/Call         `pickTarget` with its strategies, `withTimeout` (packages/mesh/src/call.ts)
--   Mesh/Dispatch     `createCallDispatcher`: attempts, retries, fallback and middleware
--   Store/Paging      `WHERE`, `LIMIT` and reading an ordered table page by page
--   Store/Streams     the table `_chimpbase_stream_events`: `streamAppend`, `streamRead`
--   Blobs/Memory      the driver that keeps blobs in memory (packages/blobs/src/memory_driver.ts)
--   Blobs/Tables      the tables of blobs, uploads and parts (packages/bun/src/sqlite_adapter.ts)
--   Blobs/Client      `put`, `get`, `head`, `delete` and `copy` of `createBlobsClient`
--                     (packages/core/engine.ts)
--   Blobs/Uploads     `createUpload`, `resumeUpload` and the upload that `buildUpload` makes
--   Contracts         the contracts of workflows: `versionWorkflow`, `compareWorkflowContracts`,
--                     `compareWorkflowSteps`, `compareRecordSchemas`, `compareSchemaShape` and
--                     `stableSerialize` (packages/runtime/index.ts)
--   Prelude/Maps      a `Map` with strings for keys
-- The children of a module hold its specification and proofs, and its Tests the runs.
--
-- How state and errors appear. A table is the list of its rows in the order of the ids. An operation
-- of the adapter is a function from table to table; the statements of one call are taken as atomic,
-- which is what `BEGIN IMMEDIATE` or a single statement gives. A method of the engine is a function
-- from the engine's state to a result, a value or the text of what was thrown, and the next state.
-- Time is a natural number of milliseconds since 1970.
--
-- Fuel. `window_loop`, the loop that moves a cron schedule on to the present, has one round for each
-- millisecond up to now and one more; every round moves on by a minute at least, so that is enough. `drain`
-- has one round for each run that is allowed and one more, since every round but the last runs something;
-- used up fuel is an error of its own there. The loop of a workflow has the 1024 rounds of the source, and
-- throws after them. The loop that adds the values of a cron field has one round for each number from its
-- start to its end.
--
-- Parameters. `Number`, the conversion of text that is neither blank nor a run of at most 15 decimal
-- digits, is a parameter of the parser, and the order in which the database lists names one of the claim of
-- a schedule. Random UUIDs are arguments, and so is the code of the application: functions on the engine's
-- state. Such code keeps the transaction if, where one is open, it leaves the depth, the saved database and
-- the committed and published events as they are. In the mesh the numbers of JavaScript are a parameter
-- with `<` and 0.5, of which the theorem on loads assumes what holds of numbers other than NaN, and so are
-- the invocation of an action and the random index. A promise is the time after which it settles, or never.
-- JSON and the digests of `node:crypto` are parameters too, and of two values of JSON the comparison of
-- contracts takes whether they have the same `stableSerialize`. The theorem on a stream assumes of JSON
-- that it reads back the payload.
--
-- The event bus does not throw here. In the source it is called after the commit but inside the `try`, so
-- that a bus that throws leads to a rollback of a transaction that is no longer open.
--
-- Not modelled: `drain` without a limit of runs, `syncRegisteredCrons`, and the actions and routes of the
-- engine; SQL and HTTP themselves; telemetry; the registry of nodes, the transport and the plugin of the
-- mesh; the registration, decorators and validators of packages/runtime, and the contract of a draft with
-- its hash, which are inputs here; the lists of blobs and of uploads by prefix, signed URLs and the driver
-- on files; the stores of keys and of collections; the packages auth, otel, pact, rest-collections, tooling
-- and webhooks. The claim of jobs in batches of the PostgreSQL adapter is left out: `processNextQueueJobs`
-- is modelled over adapters that claim one job at a time.
mod Prelude
pub mod Text
pub mod Cron
pub mod Queue
pub mod Schedules
pub mod Workflow
pub mod Engine
pub mod Mesh
pub mod Store
pub mod Blobs
pub mod Contracts
