-- ===== src/Lib.antt =====
-- hambone: a gRPC server that creates, reads, updates and deletes Instances, directories with a
-- kustomization.yaml and further files, keeps them in a state store (etcd or a git repository), and
-- can have kustomize and kubectl check and run them.
--
-- The program's parts. A handler of pkg/instances/server.go makes a request of
-- pkg/instances/instances.go. Apply and Delete compare the names of the Instance and its
-- OldInstance, have the state store's updater or deleter `Init` (take a lock, compare OldInstance
-- with what is stored, write the files for the tools), run the tools, and `Commit`; a deferred call
-- runs the cleanup functions that `Init` registered. Get runs a getter and, if asked, has kubectl
-- report the state of the Deployments. pkg/state/state.go is the interface between the requests and
-- the two adapters, pkg/state/etcd/etcd.go and pkg/state/git/git.go.
--
-- The files:
--   Base        numbers, lists, texts, conditionals
--   Go          errors as values, calls over a state, panics, `defer`; FilePath is path/filepath
--   Pb          the messages of generated/hambone.pb.go
--   Sys         files and child processes, a parameter
--   Helpers     pkg/helpers/helpers.go. Debug: debug.go and release.go, the two builds of logging
--   State       pkg/state/state.go. Method and Receiver: what a method of an adapter reads and
--               writes. Contract: what the requests rely on. Page: the window that a getter cuts
--               out. Cleanup: runCleanupFuncs; its children are about the order of the calls
--   Etcd        pkg/state/etcd/etcd.go. Client is the etcd client, a parameter; Lawful is what is
--               relied on of it. Adapter, Getter, Updater, Deleter and Engine follow the source.
--               Keys, Stored, Contract, Reliable and the children of the others hold proofs;
--               RoundTrip, Server, Apply, Delete, Success and ReadBack are about whole requests.
--               Shared, with its children, is about a cluster that other clients write to, and
--               Atomic, with its own, about requests that may end in any way
--   Git         pkg/state/git/git.go. Commands: git, rm and the rollback. Loader: loadInstance.
--               Cleanup, Getter, Updater, Deleter and Engine follow the source. Outcome, Undone,
--               Conflict, Loaded, WrittenFiles, Contract and Apply hold proofs about the commands
--               that are run, Released about the lock. Repository is what is relied on of git, and
--               its children are about what whole requests make of it; Bare is what these requests
--               do on the machine
--   Instances   pkg/instances. Exec: the tools. Statuses: LoadStatuses. Requests: Apply, Delete,
--               Get, GetTemplates and the handlers; its children hold proofs
--   Examples    examples. Api: the generated client. Client: client.go. Web: webServer.go, with
--               Routes for what of net/http and regexp it relies on; the others hold proofs
--   Main        main.go: the flags, the choice of the state store, and the start
--   Tests       a cluster and a machine in memory, and runs of the program on them
--
-- How the code is modelled. A Go function that does I/O is an `Action W A`: from a state to a result,
-- which is a value, an error or a panic, and the state after it. A method of an adapter works on a
-- `Call`: the world (the cluster, the machine, the package variables), the message that the adapter
-- and its caller both point to, and the receiver. `defer` and the calls whose error is dropped are
-- operators of the module Go. A method `M` of a type `etcdUpdater` is `Etcd.Updater.m`, and so on.
-- There is no fuel: every loop is over a list, and the 700 rounds of the example client are counted.
--
-- Numbers. The fields Start and Stop are int32, modelled as integers; `int32 (length xs)` wraps, and
-- the theorems about pages ask for a list shorter than 2³¹. Natural numbers are native.
--
-- What is assumed. `IsLawful`: reads, puts and deletes of etcd act on a map from keys to values
-- that no one else writes meanwhile, and locks and leases touch only keys that contain "-lock/". A
-- key "without the mark of a lock" is one that does not. `IsQuiet`: closing and unlocking do not
-- panic. `IsShared`, for requests that run while other clients write: `history` is what a key has
-- held, and nobody else changes it while this client holds the mutex of the key. That asks of the
-- others that they keep to the lock, and of the lease that it outlives the request. `Writes`, for
-- requests that may end in any way: a put or a deletion has, once it has returned, taken effect or
-- not, whatever it returned. `IsReliable`, where the success of a request is the point: no call of
-- the cluster or of the machine fails, and those that clean up do not panic. `IsFileSystem`, for
-- files that nobody else writes: paths name the same file if they are the same when cleaned.
-- `IsRepository` ("a lawful git repository"): the working tree, the index, HEAD and the remote are
-- maps from paths to contents on which diff, add, commit, push, rm and pull act as git documents
-- it; no file is ignored, and nobody else writes or pushes. What the shell makes of the name of a
-- directory is said of plain names only (`is_plain`: it reads them as they are), and that a diff
-- exits 0 where nothing differs only of paths that are there (`is_here`). `IsPushedOnly`, which
-- the theorem about an `Apply` that may end in any way asks for too: of the commands that are run,
-- only a push that succeeds changes the remote. `IsRestorable`, which the theorem about a push
-- that fails asks for too, says what ls-files, reset, checkout and rm do. `IsUpdater` and
-- `IsDeleter` are the contract between the requests and an adapter: `Cancel` hands its error on,
-- and cleaning up leaves the Instance alone. Tests has a cluster that is lawful and quiet, and one
-- that other clients write to before each call. `Reached` is a step relation of servers that share
-- a cluster and handle one request at a time.
--
-- Not modelled: gRPC, the generated methods of the messages, the places where the program logs
-- (the functions it logs with are in Helpers), the timeouts of single etcd requests, the
-- concurrency of the pipe into kubectl (its input is written before kubectl is waited for), the
-- use of an error's text as a format (a % in the text of a failed cleanup), the parsing of flags,
-- and dialling. The listener of main is a parameter. The yaml parser, the HTML templates and the
-- messages that a request of HTTP carries beside its path and its form are parameters or left out.
-- The example callers reach the server without a fault of the connection.
pub mod Base
pub mod Go
pub mod Pb
pub mod Sys
pub mod Helpers
pub mod State
pub mod Etcd
pub mod Git
pub mod Instances
pub mod Main
pub mod Examples
pub mod Tests
