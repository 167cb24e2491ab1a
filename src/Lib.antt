-- ===== src/Lib.antt =====
-- The optimization platform of src/mfbo_platform: an HTTP API accepts experiments, stores a record of
-- each in a repository and puts a message for it on a queue; workers claim the record under a lease,
-- run an engine, write metrics and the result into the record, and acknowledge the message.
--
-- Files, and what they model (paths are from the repository's root):
-- - Base, with Base.Tests, Base.Lists, Base.Assoc, Base.Texts and Base.Int: tests, lists, Python's
--   dict, operations on texts and integers, shared by all.
-- - Double: Python's floats as an interface with order laws, and decimal fixed point as an instance.
-- - Errors: src/mfbo_platform/errors.py.
-- - Domain, Domain.Config, Domain.Accepts: src/mfbo_platform/domain.py.
-- - Repository, Repository.Points, Repository.Blob, Repository.Files with their child modules:
--   src/mfbo_platform/repositories.py. A store is a dict of records; a mutation reads the clock at
--   three moments (Times). Repository.Blob is the repository under ETags, for an arbitrary container,
--   whose calls may fail before or after they took effect, with the five tries of the source,
--   Repository.Blob.Create its create, Repository.Blob.Mutate what a mutate leads to, and
--   Repository.Blob.Listing its iter_records. Repository.Files is the one in the filesystem: the atomic
--   write, and the methods under the lock (Methods), where each call of the operating system may fail
--   and the process may be killed at it.
-- - Service.Changes, Service, Service.Idempotency, Service.Outbox with
--   Service.Outbox.Answered, Service.Reconcile, Service.Steady:
--   src/mfbo_platform/service.py.
-- - Worker.Changes, Worker.Process, Worker.Kept, Worker.Safety, Worker.Steady, Worker.Loop,
--   Worker.Completion:
--   src/mfbo_platform/worker.py. Worker.Changes has the callbacks that the worker hands to `mutate`,
--   Worker.Process the methods, in the order of the source's calls, Worker.Loop the polling loop.
-- - Protocol, with Protocol.Record, Protocol.Lease and Protocol.Runs: all writes that the service and
--   the workers make to a record, as data, and sequences of them by any number of processes.
-- - Config: src/mfbo_platform/config.py. Factory, Factory.Backends: src/mfbo_platform/factory.py.
-- - Cli, Cli.Starts: src/mfbo_platform/cli.py and src/mfbo_platform/healthcheck.py, the processes as
--   sequences of calls that may raise.
-- - Queue, Queue.Delivery: the in-memory queue of src/mfbo_platform/queueing.py. Queue.Azure,
--   Queue.Azure.Receipts: the Azure queue, for an arbitrary storage queue.
-- - Api, Api.Key, Api.Answers: src/mfbo_platform/api.py. FastAPI's routing and validation come first.
-- - Engine, Engine.Behaviour, Engine.Best, Engine.Finishing: src/mfbo_platform/engine.py. A run is a tree
--   of its calls of the callbacks and the clock.
-- - Tracking, Tracking.Kept: src/mfbo_platform/tracking.py.
-- - Artifacts, Artifacts.Frame: the plot of src/mfbo_platform/artifacts.py. Artifacts.Stores with
--   Artifacts.Stores.Local and Artifacts.Stores.Azure: its stores, on a disk whose calls may fail and
--   on a container.
-- - Telemetry, Telemetry.Requests: src/mfbo_platform/telemetry.py. JsonLog, JsonLog.Payload:
--   src/mfbo_platform/logging.py.
-- - Scripts.Secrets, Scripts.Secrets.Vault: scripts/initialize_azure_secrets.py. Scripts.Render,
--   Scripts.Render.Safe: the check of the substitutions of scripts/render_k8s.py, and
--   Scripts.Render.Template, Scripts.Render.Markers: its run. Scripts.Json,
--   Scripts.Answers, Scripts.Smoke, Scripts.Smoke.Stops, Scripts.Smoke.Passes: scripts/smoke_stack.py.
--   Scripts.Aks, Scripts.Aks.Readiness, Scripts.Aks.Replicas, Scripts.Aks.Verified: scripts/verify_aks.py.
-- - Exec, Exec.Ensures: methods that change a state and may raise, and what they keep.
-- - World, World.Over, World.Kept, World.Steady, World.Quiet, World.Calm: what one process sees of the
--   others. Before each call out of a process the environment takes a turn: writes of other processes, a wake-up of the thread that
--   renews the lease, a signal; and the call may fail, before or after it took effect. The environment
--   is a parameter, a function of the number of the call.
-- - Examples: the theorems at concrete inputs.
--
-- The polling loop of the worker has fuel, one unit for a pass: n + 1 passes are enough where the
-- signal to stop comes at call number n, since each pass makes a call. So have the two loops of the
-- smoke test: n + 1 passes are enough where the clock is over the timeout from its n-th reading on. All
-- other loops are structural recursion on lists and texts, on the number of rounds that `range` fixes
-- before the loop, or on the tree of an engine run.
--
-- The packages outside the repository (the Azure clients, MLflow, pydantic's JSON, hashlib, uuid, the
-- random generator) are parameters or replies of the environment. Not modelled: the registration of
-- the Prometheus counters and the text of their page, argparse and the output of the scripts, and the
-- benchmarks (benchmarks), which measure the running program and keep no state of it.
pub mod Base
pub mod Double
pub mod Errors
pub mod Domain
pub mod Repository
pub mod Service
pub mod Worker
pub mod Protocol
pub mod Engine
pub mod Exec
pub mod World
pub mod JsonLog
pub mod Scripts
pub mod Telemetry
pub mod Tracking
pub mod Queue
pub mod Artifacts
pub mod Cli
pub mod Config
pub mod Factory
pub mod Api
pub mod Examples
