-- ===== src/Lib.antt =====
-- Verification library of metio, a controller for Minecraft servers in the cloud.
--
-- The program has a controller, which keeps documents about servers in a state store and runs
-- provisioning operations with Pulumi, and a machine agent on every server, which reports the status
-- of the server and carries out the commands that it finds in the status document. The parts meet in
-- the documents: a request handler validates and stores a server config, an executor writes the status
-- of an operation and enqueues a task, the task runs the operation, and the operation writes its
-- progress into the status and its commands into the agent's status document.
--
-- Types: the documents of internal/dbtypes/types.go, internal/db/server_config.go and
-- internal/db/provisioning.go. Go strings are texts, times are nanoseconds, a pointer that may be nil
-- is an Option, and `int` values are integers without a bound. Types/Codec has the wire names.
--
-- Validation: internal/db/validation.go, one function per Go function; Validation/Patterns has its
-- regular expressions as matchers. Validation/Fields and Validation/Config compare them with
-- declarative rules.
--
-- Exec: actions with a state, errors and a log of the calls made. What the repository calls and does
-- not implement (Pulumi, the Compute API, the state store, Cloud Tasks, the bucket, the clock) answers
-- through an `Env`, whose answers may depend on all calls made before. Exec/Triple and Exec/Agree have
-- the rules for pre- and postconditions and for equal runs.
--
-- Programs: the input of the Pulumi program, `buildProgramConfig` of internal/handlers/servers and of
-- internal/handlers/tasks.
--
-- Provisioning: internal/services/provisioning.go and internal/services/update_operations.go, function
-- by function: Calls (the calls and the bookkeeping of steps), Retry (`executeWithRetry`), Coordinator
-- (the commands to the agent and the polling), Deploy and Operations (`runCreate` to `runRestore`,
-- `ExecuteOperation` and `RevertServerConfig`), Executor (internal/services/executor_cloudtasks.go;
-- Starting and Cancelling show how its operations end), Requests (the entry points).
-- The status that Go mutates through a pointer is the object of the state, and every write of it is a
-- call in the log. The polling loops run on rounds: `timeout / interval + 1` of them, each of which
-- sleeps an interval, so that the deadline has passed when they are used up (Polling). A retry loop
-- runs on the attempts that are left, as in the source.
--
-- Db: internal/db/dapr.go over a client and JSON codecs that are parameters. Db/Laws states what is
-- relied on of them: a store that answers and keeps what was saved last under a key, and codecs that
-- read back what they wrote, except for the id of a server config, which is no part of the JSON.
-- Db/Laws/Memory is such a store. Operations of several steps are not atomic, and a failure between
-- the steps is an error of the action that leaves the steps before it done.
--
-- Cleanup: `RunSweep` of internal/services/backup_cleanup.go. The order in which Go visits a map is a
-- parameter.
--
-- Tasks: `HandleProvisioningTask` of internal/handlers/tasks/handler.go, which runs the operations of
-- Provisioning for the tasks that Executor enqueues.
--
-- Goroutines: internal/services/executor_goroutine.go, the other executor, as steps on the map of
-- operations and the goroutines that run.
--
-- Progress: `calculateProgress` of internal/handlers/servers/common.go.
--
-- Agent: cmd/machine-agent. The pending commands (Agent/Commands), which are those that
-- Provisioning/Coordinator writes into the status document; the scheduled shutdown (Agent/Shutdown and
-- Agent/Warnings); the relay of backup manifests of backups.go (Agent/Manifests); the whitelist
-- (Agent/Whitelist, with the calls of a sync in Agent/Syncs); the restore of restore.go (Agent/Restore,
-- with how it ends in Agent/Restored); and the round of main.go (Agent/Round, with how it ends in
-- Agent/Rounds), which makes the other steps through the program's function variables.
--
-- Handlers: internal/handlers/servers and internal/handlers/agent. A handler is an action over the
-- calls of `HandlerCall` that ends with its response or early with an error response. Checks has the
-- tests that several handlers share, Create, Update, Catalog, Reads, Actions, Edits and AgentApi the
-- handlers; Options and Responses have the lists that are offered and the conversions to wire
-- documents. Guards and Steps are the reasoning: `Told c P` says that a call was made before, with an
-- answer that satisfies P, and `Guarded` that every change was allowed by what was told before it.
-- Offered, Checked, Launched, Returns, Rechecked and Changes carry this through the shared parts.
--
-- Tests: examples of the theorems at concrete inputs.
--
-- Not modelled: the web login, the parsers of the machine agent, the setup service and
-- the caches; the HTTP clients of GCP, Mojang and Modrinth, the Pulumi programs, tracing and routing,
-- which are input and output; logging, throughout.
pub mod Base
pub mod Types
pub mod Validation
pub mod Exec
pub mod Programs
pub mod Provisioning
pub mod Db
pub mod Cleanup
pub mod Tasks
pub mod Progress
pub mod Agent
pub mod Goroutines
pub mod Tests
pub mod Handlers
