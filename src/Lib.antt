-- ===== src/Lib.antt =====
-- Credimi Runner: a model of its core, and what holds of it.
--
-- The runner exposes devices to Credimi. Its centre is the runtime supervisor,
-- internal/runtimesupervisor: it owns at most one runtime generation, the execution API, the edge
-- tunnel, the Temporal workers and the lifecycle client of one configuration, and starts, stops,
-- restarts and reconciles it, and tears it down when a part fails.
-- The controller, internal/controller, submits its lifecycle operations and runs them one at a time.
-- The gates of internal/device let one caller at a time work on a device.
--
-- Parts and files:
--
-- Prelude: shared names and helpers. GoError: Go's error values as the program uses them
-- (errors.New, fmt.Errorf with %w, errors.Join, and the types that errors.Is and errors.As look
-- for). A nil error is `none`.
-- Strings: what the program uses of Go's strings, strconv, net and regexp, on texts and their code
-- points. A regular expression is matched by derivatives.
-- Config: the records of internal/config/model.go. Config.Checks, Config.Devices and Config.Validate:
-- internal/config/validate.go, the checks one by one, the loop over the devices, and
-- ValidateForPlatform. Config.Defaults: defaults.go, paths.go, address.go and Redacted of store.go.
-- Config.Store: load.go and WriteFile and configuredOwner of store.go. Config.Valid
-- describes a valid configuration without the order of the checks; TableRules, DeviceRules,
-- DeviceLoop and Soundness prove that the validation decides it, Ports, Filled, Loading and
-- RoundTrip what their names say.
-- Disk: internal/atomicfile/atomicfile.go. A disk maps a path to what Lstat finds there, each call of
-- the operating system may fail, and the name of the temporary file is given. Directories are not
-- part of it, and the deferred removal of the temporary file is taken to succeed.
-- Supervisor.State: internal/runtimesupervisor/state.go and state_store.go, what Load makes of a
-- file and what Save encodes.
-- Supervisor.Retry, Supervisor.Generation, Supervisor.Teardown, Supervisor.Construction,
-- Supervisor.Activation, Supervisor.Machine, Supervisor.Transitions, Supervisor.Restart and
-- Supervisor.Apply: internal/runtimesupervisor/supervisor.go. transientRegistrationError and
-- registerWithRetry are in Retry; the generation struct and Dependencies in Generation;
-- teardownGeneration, newGeneration and activate in Teardown, Construction and Activation; New,
-- RequestStart, updateState and fail in Machine; Start, rollback, handleGenerationFailure, Stop and
-- Close in Transitions; Restart and Reconcile in Restart; ApplyInventory and ApplyEndpoint in
-- Apply.
-- Supervisor.Run: sequences of those methods. transitionMu makes a method atomic, so concurrent
-- callers and the monitors of failed generations are such a sequence. RequestStart does not take
-- that lock and stands between two methods here.
-- Controller.Operation: the coordinator of internal/controller/operation.go. Submit, update, Current
-- and Get are functions of their names, Wait is `returns_at_once` (the wait itself is a channel's);
-- run is its first statement `begin`, its outcome, and finish, which is its first critical section
-- `settle`, the closing of the channel, `close_channel`, and its second critical section,
-- `enter_history`. Operations are shared by address, as the source shares them by pointer.
-- Controller.Steps: those functions as steps, which callers and goroutines take in any interleaving.
-- The checks for a nil receiver are left out.
-- Device.Gate: the gates of internal/device/gate.go, Acquire and the function that it returns.
-- Device.Registry: internal/device/registry.go, type.go and errors.go, Replace, Resolve and
-- ResolveEnabled, with the loop of devicesFromConfig and its sort.
-- Device.Exclusion: Acquire and release as steps of callers in any order.
-- Process: pkg/server/process.go. The goroutines, contexts and channels that Start makes are numbered
-- by the generation; Process.Step has a step for each critical section, each report of readiness,
-- each return of a run function, the answer that the goroutine gives after it, and each call of a
-- cancel function, in any order.
-- Worker: pkg/workermanager/worker_manager.go, the function that runTemporalWorker returns. The client
-- and the worker of Temporal and the context are functions on a world; a client is taken to be
-- non-nil. The loop may run for ever, so what holds of it is said of every number of rounds.
-- Lifecycle: pkg/server/lifecycle.go, currentDevices, isLifecycleRetryable and post. An attempt and the
-- pause after it are functions on a world.
-- Artifacts: pkg/server/device_inventory.go, with filepath.Join and the digest as parameters.
-- Edge: internal/edge/cloudflared.go. The processes that Start makes are numbered; Edge.Step has a step
-- for each critical section, each line of output that consumeOutput reads, the receipt of a URL by
-- Start, each end of a process, the report of it, and the closing of its channel, in any order. The
-- lines that have been read are kept, so that it can be said where a URL comes from; the scanner that
-- splits the output into lines is bufio's. Edge.Address is the URL of a named tunnel, Edge.QuickUrl the search for the URL of a
-- quick one in a line of output, Edge.Redacted what errors say without the token, and
-- Edge.Environment cloudflaredEnv and manual.go. A call of Stop is given the states in which it asks its questions.
-- Api: internal/runtimesupervisor/http_api.go, the start, the goroutine serve and the shutdown of the
-- server as steps in any order.
-- Registration: internal/runtimesupervisor/registration.go. Register is in Registration, with the calls
-- that it makes in their order; the loop of verify and an attempt in Registration.Endpoint, verify
-- with what it checks before in Endpoint.Verify, publicEndpointVerificationURL and
-- isTryCloudflareHostname in Endpoint.Address.
-- Coordination: internal/servicecoordination/servicecoordination.go, each call of the operating system
-- that one of several callers of StartPresence makes on the shared lock and presence as a step, in any
-- order. A call's number is its nonce; a process may make several calls, and PIDs may be used again.
-- The cleanup's test and removal of the presence are one step; Coordination.Messages has the restart requests and results.
-- Service: internal/servicemanager/service_fingerprint.go, the projection of the configuration;
-- Service.Locality which hosts are this machine, Service.Compatible the two comparisons.
-- The modules Laws, Invariant, Promises, Stopping, Replacing, Classify, Progress, Exclusion,
-- Lookup, Ending, Reconciling, Guarded, Exported and Reports prove; the modules Tests compute at concrete inputs.
--
-- A method is a function of the supervisor and a world `W`. The interfaces that the supervisor calls
-- (API, edge, workers, lifecycle client, the functions of Dependencies, the context) are fields of a
-- record `Env W`, arbitrary functions on the world. What the proofs rely on of them are named
-- hypotheses: MakesParts (a constructor returns a value or an error) and Ticking (a timer of at least
-- a millisecond that fires takes its time off what is left until the deadline of a context; nothing is
-- assumed of a timer of no time). The variable registrationRetryDelay is a field of `Env` in whole
-- milliseconds, where 0 stands for any delay that is not positive.
-- The configuration takes url.ParseRequestURI, the order in which range visits a map, the TOML codec,
-- SHA-256, filepath.Join and Abs, the environment and the home directory as parameters. The proofs
-- rely on Visits (a range visits each entry of the map and no other), Decodes (the codec reads back
-- what it wrote of the configuration), JoinsTmp (a path joined with "tmp" is not empty) and Cancels
-- (a sleep of the worker that is cut short finds its context cancelled).
-- Service takes the digest and the sort as parameters, with Separates (the digests of the two compared
-- projections are equal only if these are) and SortsOnce (sorting again changes nothing);
-- Coordination.Messages the JSON codec, which reads back what it wrote. Artifacts takes the digest of
-- a device's identifier, a hexadecimal one, to have no slash.
-- url.Parse, net.ParseIP, strings.ToLower, what requests return and when the deadline of verify passes
-- are parameters of Edge and Registration; nothing is assumed of them but that this deadline passes
-- after some round.
-- filepath.IsAbs is that of Unix.
--
-- Bounds: the loop of registerWithRetry runs on fuel, the milliseconds left until the deadline and
-- two more, which is proved enough when waiting ticks, from the delay that the guard on
-- registrationRetryDelay leaves. The loop of verify runs on as many rounds as
-- pass until its deadline has, and one more. Other recursion is structural.
--
-- Left out: UpdatedAt of the persisted state, which nothing reads; the texts of errors beyond their
-- words in the source; locks below transitionMu; the goroutines of watchFailureSource, whose arrivals
-- are the world's choice of what poll_fatal reads; Status, which only reads; and the other packages of
-- the repository, which are HTTP handling, files, external programs and glue, or are not yet
-- modelled.
pub mod Prelude
pub mod GoError
pub mod Strings
pub mod Config
pub mod Disk
pub mod Supervisor
pub mod Controller
pub mod Device
pub mod Process
pub mod Worker
pub mod Lifecycle
pub mod Artifacts
pub mod Edge
pub mod Api
pub mod Registration
pub mod Coordination
pub mod Service
