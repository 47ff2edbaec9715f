-- ===== src/Lib.antt =====
-- The core of DobbyVPN, the Go program under core/, as far as it decides and owns: which attempt
-- runs, what it has acquired, when that is released, and what a client is told.
--
-- Common has the names that all modules share, the Boolean tests on native numbers, u64 (a 64-bit
-- counter wraps at 2 ^ 64) and functions on lists and texts. Failure is the error type of
-- core/sessionapi/api.go: Error, CleanupFailure, CodeOf, wrapFailure, safeConfigError, over an
-- inductive type of Go errors with wrapping and errors.Join.
--
-- Session is the manager of core/sessionapi (api.go, restore.go, shutdown.go).
--   Types: the struct session with all its fields, and a goroutine as a `Worker` with the stage that
--     it has reached. The mutex makes each critical section one function of the session.
--   Guards: canSwitch, canRetry, configurationBlocked, acceptsStop, get, primaryActionLocked,
--     validateStartTarget, and the two validations of Configure.
--   Configure: Configure in its two critical sections, and AttachSourceStore.
--   Control: Start with retryLocked, replaceLocked and beginAttemptLocked.
--   Stop: Stop, acknowledgeStoppedLocked, ProtectSocket in two parts, since it asks the platform
--     without the lock, and StopAndWait's fence and Resume.
--   Ledger: the type ledger.
--   Attempt, Candidate, Health: runStart, prepareNetwork, prepareCandidate, advance,
--     waitForAttemptEnd and reportHealthFailure, cut where they release the lock or call out.
--   Finish: finish, retireFinishedResources and finishProtectedFailureLocked, cut likewise.
--   System: the manager as a transition system, whose steps are the commands and the stages of the
--     workers, in any order. What the runtime, the platform and the clock answer in a stage is its
--     `Environment`; every theorem holds for all of them.
--   Activation: the saved selection of restore.go. encoding/json is the parameter `Json`: how a
--     saved activation is printed, and that it is read back.
--   SourceStore: FileSourceStore of source_store.go; ConfigLoader: config_loader.go. Configure takes
--     what they answer as arguments.
--   Invariant, Safety, Guarantees, Progress, Recovery, Actions, Restart: the theorems.
--
-- Runtime is core/sessionapi/runtime/lifecycle.go, the runtime that the session drives.
--   Lease: the lease, a stack of undo functions that its Stop runs; Monitor: the health monitor.
--   Readiness: waitForInitialReadiness and onlyCanceledLeaves.
--   Start: Start with startLocked and its rollbacks; Network: PrepareNetwork, acquireNetworkTunnel,
--     connectContext and the Stop of the network's owner; Acquisition, Ownership: what a Start acquires,
--     and who owns what they leave.
--   Platform: the adapter of core/sessionapi/mobilebinding (platform.go, ownership.go), whose
--     descriptors a runtime's network owns on the mobile platforms.
--
-- Tunnel is core/tunnel.
--   FlowOwner, SwitchingProxy: flow_owner.go and switching_proxy.go; a channel is whether it is
--     closed, or how many were closed before it.
--   Engine: the process-global engine of tunnel.go, with Attach, Detach and Stop over the router
--     (a SwitchingProxy) and the flows of the attempt's proxy (a FlowOwner). Runtime.Start attaches
--     to it through the core, whose answer it takes as an argument.
--   Dialing: the dials and the connections of a proxy, their counters and the idle timer; each lock
--     and each wait of the code is the boundary of a call.
--   Bypass: bypass_policy.go; Runtime.Start asks for its policy and extends it.
--   SocketScope: protected_dialer/scope.go, the sockets of an attempt, which its lease closes.
--
-- Config is core/protocol/config.go (the values, CloneFields) and core/sessionapi/config.go: Decode,
-- Parser and Outline are decodeConfig, the profiles, and the address of an Outline profile. What the
-- standard library and package toml read is a parameter, the record `Libraries`.
--
-- Routing.Plan is core/routing/plan.go; a lease is shared by its plan and by whoever acquired it,
-- so leases live on a heap. Outline is core/outline/ownership.go: StreamScope is
-- pendingStreamConnScope, and Device what an OutlineDevice owns, up to its Close. Outline.Association
-- is core/outline/udp_association.go: the steps of an association's goroutines, and Relaying one
-- datagram of its client.
-- Dns.Cache and Dns.Hosts are core/dnscache/cache.go, and Dns.Aliases the walk over CNAME records
-- in resolver_wire.go. Diagnostics.Writer is the Writer of core/diagnostics/files.go, and
-- Diagnostics.Migration the streaming of core/diagnostics/migrate.go, with bufio's ReadSlice.
-- Diagnostics.Legacy is core/diagnostics/legacy.go, over the files of Diagnostics.Disk: any call of
-- the system may be refused, and a transaction that is interrupted anywhere is one that was refused
-- its next call. Disk.Triples has the rules by which its parts are put together, Publication and
-- Resumption are about finishLegacyCommit, Merging has the history that a migration is to leave, and
-- Staging, Commitment, Outcomes, Marking and Recovery are about what comes before finishLegacyCommit
-- and the transaction as a whole. The name of a history stands for those of its two
-- generations, its stage and its marker, and the names of two histories are apart.
-- The session hands its leases to these owners: a runtime's lease closes flows and sockets, and a
-- network lease a routing plan.
--
-- Fuel: `stages` runs a worker for so many stages; finish takes five where no other step comes
-- between. `walk` is run with one round more than the response has records. The outer loop `query`
-- lasts until its context ends, which its fuel stands for. A wait for readiness has as many rounds
-- as attempts, a migration takes at most one round more than its input has bytes, its transaction
-- two, as a publication removes the marker, and an int64 has at most nineteen digits.
--
-- Not modelled: the HTTP client, other file and system calls, the wire formats, the packet stack
-- and the transports, the platforms' routing code, logging, the deadlines of contexts, and
-- cancellation that arrives inside a call to the runtime (it is part of that call's answer).
pub mod Common
pub mod Failure
pub mod Session
pub mod Runtime
pub mod Routing
pub mod Tunnel
pub mod Outline
pub mod Dns
pub mod Config
pub mod Diagnostics
pub mod Tests
