-- ===== src/Lib.antt =====
-- A verification library for aegis-honeypot, an SSH honeypot in Rust: a gateway that takes
-- attackers' connections, a collector that writes their telemetry, a forensics engine, and a
-- dashboard that reads the telemetry back.
--
-- Prelude and its children hold what the other files share: Boolean tests, lists measured by
-- native numbers, std::collections::HashMap as an association list, texts as lists of code
-- points. Net has the addresses of std::net. Common has the telemetry events of
-- crates/aegis-common/src/lib.rs; a floating-point number is a type parameter.
--
-- Gateway.Admission is IpConnectionGuard of crates/aegis-gateway/src/handler.rs: try_admit and
-- release with the clock handed in, on a state that is a record. Gateway.Admission.World puts
-- the guard beside what really happened (the connections that are open, the log of admissions)
-- and lets them take steps in any order; Spec says in terms of that history when a connection
-- is to be admitted, Invariant relates the two, Limits has the results.
--
-- Dashboard.Store is Store::ingest of crates/aegis-dashboard/src/store.rs with every counter,
-- set, ring and archive it updates. Counters and Archive have the laws of the capped maps and
-- of the session archive, Bounds and Totals the results. The grid of coordinates is a
-- parameter, since it is arithmetic on floats; the clock of bump_hour is handed in.
--
-- Gateway.Egress is is_blocked_ip and vet_target, Nets and Vetting their results; Gateway.Fetch
-- is fetch_payload_blocking with what it writes and dials as a list of effects, Names, Body and
-- Effects its results.
--
-- Gateway.Session is ActiveSession of the same file: the state and its trace of actions in
-- Session, data in Editor, the other handlers and the histories of calls in Handler. Trace has
-- the invariant, Invariant the steps that keep it, Limits the results, Recording what the
-- recorder of the collector makes of a session. A write to the channel may fail at any point.
--
-- Gateway.Geoip is crates/aegis-gateway/src/geoip.rs over the crate maxminddb as a parameter,
-- Databases its result.
--
-- Gateway.Server is new_client and the end of a session: Slots has arrivals and departures in
-- any order, and carries the results on the guard over to the server.
--
-- Collector is crates/aegis-collector/src/lib.rs: Sanitize has the results on what is printed,
-- Rotation those on the log, Recorder and Truncation those on a recording. Forensics is
-- crates/aegis-forensics/src/lib.rs, Strings and Analysis its results. Dashboard.Access and
-- Dashboard.Tail are the token check, the recordings served and the log tailer of
-- crates/aegis-dashboard/src/main.rs, Guard (with Query on the query string) and Polls their
-- results.
--
-- Gateway.Vfs is VirtualFileSystem of crates/aegis-gateway/src/vfs.rs: the nodes, the
-- resolution of paths and the tree in memory in Vfs, cd and cat in Reading, ls in Listing, the
-- commands that change something in Commands, the first tree in DefaultFs. What std::fs answers
-- is the record Disk, whose answers may depend on every call that changed the disk so far;
-- those calls are kept in the file system's state. Paths, Tree, Contents, Removal and Errors
-- have results on one part each; Confined shows that no command leaves the mount, Unseen that
-- nothing outside the two roots shows.
--
-- Gateway.Shell is crates/aegis-gateway/src/shell.rs: redirects, the loop that strips sudo and
-- dispatch in Shell, the commands that only answer in Replies, their constant texts in Canned.
-- Confined and Unseen carry the results on the file system over to whole command lines, Loops
-- has the ends of the loops, Quotes what echo prints. Typed puts the shell and the file system
-- into a session, whose handlers are the only ones to change them (Gateway.Session.Files).
--
-- Vmm is crates/aegis-vmm/src/lib.rs over a host whose answers are a parameter: the overlay of
-- a session and its handle in Vmm, the start of a sandbox in Spawn, the reconciliation at a
-- start in Orphans, with its result in Orphans.Settled and Reclaimed; Lifecycle has the life of
-- one mount. Vmm.Rootfs is src/rootfs.rs of the same crate, Contents its directories and files,
-- Provisioned what a run has written. The root that Spawn answers is the mount root of a
-- session's file system.
--
-- Ebpf is crates/aegis-ebpf/src/lib.rs with the accessors of KernelEvent, Probes is
-- ebpf/src/main.rs of the same crate, Wire takes an address from the memory of a process
-- through both.
--
-- Startup has what the two programs keep over a restart: Token is load_or_create_token of
-- crates/aegis-dashboard/src/main.rs, HostKey is load_or_create_host_key of
-- crates/aegis-gateway/src/main.rs, Restart their results.
--
-- Dashboard.Queries is the reading side of the store: Ranking and Pages have its results,
-- Handlers the limits that main.rs puts on a request.
--
-- The counters of connections, fetches and events, which are u32 or u64, are taken modulo 2 ^
-- 32 or 2 ^ 64, as a release build computes them; sizes of files and offsets in them are plain
-- numbers. Three functions run on fuel: the printing of a number, on one more than the number
-- and so more than it has digits; the loop that strips sudo, on the length of the command, of
-- which each turn takes some characters away; and dispatch, on two levels of calls, since the
-- pieces between semicolons hold no semicolon. Every other loop follows a list.
--
-- Not modelled: the configuration file, the loading of the kernel programs, what the entry
-- points build and start, and what only talks to the operating system or to a library (sockets,
-- TLS, regular expressions, tracing), which is left out or handed in as a parameter.
pub mod Collector
pub mod Common
pub mod Dashboard
pub mod Ebpf
pub mod Forensics
pub mod Gateway
pub mod Net
pub mod Prelude
pub mod Startup
pub mod Vmm
