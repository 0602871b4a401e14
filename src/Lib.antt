-- ===== src/Lib.antt =====
-- Infraforge: a broker that records provisioning jobs and queues them, workers that bring up the
-- resources of a job and take them down, and an xDS control plane that tells Envoy where the
-- services of the jobs are.
--
-- How the parts interact. `internal/api` answers HTTP requests: it writes the job to the store and
-- enqueues its id. `internal/worker` takes messages from the queue, reads the job, calls the
-- provisioner, writes the job's new status, and tells the control plane through
-- `internal/xdsclient`. `internal/xds` keeps a registry of endpoints, pushes a snapshot to Envoy's
-- cache on every change, and reconciles the registry with the broker's inventory of jobs.
--
-- State. A component runs over a world `W`: each call of an interface (`Store`, `Queue`,
-- `Provisioner`, `Client`, `JobLister`, `SnapshotCache`) takes the world and returns a reply with
-- the next world, so what other processes do between two calls is in these functions. `traced` wraps
-- an interface so that each call is written down with its reply. Text is a list of character codes,
-- an `int` is ℤ of Base, with its wrap-around written out where the code counts (`incr`, `decr`), a
-- time is its number of nanoseconds. A Go map is an association list with each key once. Log lines,
-- contexts, and HTTP headers other than `Location` are left out.
--
-- Files:
--   Base       helpers: numbers, texts, `%d` and `Atoi`, sorting, maps, Go errors
--   Model      internal/model/model.go
--   Store      internal/store/store.go: the interface and its laws; Store/Mem is `MemStore`
--              with the values of its jobs; Store/Redis is redis.go. `List` scans
--              for a number of rounds; as many as the scan has pages are enough
--   Queue      internal/queue/queue.go: messages and the interface; Queue/Group is what a stream with
--              a consumer group promises, Queue/Redis is `RedisQueue`, Queue/Redis/Laws what it
--              relies on in Redis
--   Provisioner  internal/provisioner/provisioner.go: the interface and `Classify`; the children from
--              Naming to Shell are docker.go, over a `Docker` that runs the commands. Its readiness
--              loops run for a number of rounds: 77 pauses of 200 ms exceed the timeout of 15 s, and
--              77 of 500 ms that of 30 s
--   XdsClient  internal/xdsclient/client.go: the interface and `Noop`; XdsClient/Http is `HTTP`
--   Worker     internal/worker/worker.go: `handle` with all that it calls. `provision` and
--              `deprovision` are `provision_by` and `deprovision_by`, cut at their early returns;
--              Worker/Loop is `Run` and `reclaimLoop`, a round and a tick at a time. Worker/Crash is
--              about a worker that dies after any call: its world stops changing (`Mortal` of
--              Base/Dying). Worker/Race and Worker/Late are about records that others write while a
--              worker is at work
--   Api        internal/api/api.go: every handler; `serve` is `Routes`
--   BrokerClient  internal/brokerclient/client.go, and the client together with the broker
--   XdsAdmin   cmd/xds/main.go: `decode` and the routes, and the HTTP client together with them
--   Xds        internal/xds: Xds/Registry is registry.go, where a method is a section under the
--              lock (`register_locked`) and a push after it (`register`); Xds/Envoy has the
--              resources that it builds, and Xds/Registry/Build/Routing says where they lead
--              requests; Xds/Reconciler is reconciler.go; Xds/Interleaving lets the calls of
--              concurrent goroutines interleave
--   Command    cmd/worker, cmd/broker, cmd/xds and cmd/echo: how each `main` sets up its process from
--              the environment, and the handlers of echo
--   System     a broker and several workers on one store and one queue, as steps: a request, or some
--              rounds of a worker's loop, each of which may be cut off after any number of calls
--   Calls      the same code of Worker, Worker/Loop and Api as the tree of its calls, for what each
--              may return: Calls/Handling, Calls/Looping and Calls/Serving; Calls/Agreement compares
--              a tree whose calls are made one after another with the code of those parts
--   Threads    any number of requests and workers whose calls interleave: a step is one call of one
--              process, or the start of a process in the place of one that ended or died.
--              Threads/Discipline says which calls a process may make, by what it was handed, has
--              drawn, read and written, Threads/Obeying is about the calls of the code, and
--              Threads/Effects about what a call leaves to the other processes. Threads/Records is
--              about the job records that are written, whoever else writes them
--
-- Not modelled: the network servers of the main functions under cmd/. What is third-party is
-- an interface with the laws that a theorem names: the Redis client, go-control-plane's snapshot
-- cache, docker, the network; so is JSON, whose decoding a theorem assumes to invert the encoding
-- where it needs it, and `time.ParseDuration`.
pub mod Base
pub mod Model
pub mod Store
pub mod Queue
pub mod Provisioner
pub mod XdsClient
pub mod Worker
pub mod Api
pub mod Xds
pub mod XdsAdmin
pub mod BrokerClient
pub mod System
pub mod Calls
pub mod Threads
pub mod Command
