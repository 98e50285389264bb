-- ===== src/Lib.antt =====
-- RemoteDeck: a local server that manages SSH hosts, tunnels, commands and terminals for a page in
-- the browser. `apps/server` holds the HTTP boundary, and `crates/remotedeck-core` what it serves.
--
-- A request passes the boundary of auth.rs first. The operations of the server then read and change
-- the repository of store.rs, which keeps hosts, tunnels, command presets and settings in one file.
-- A command is analysed by risk.rs before it runs, and work on a host holds a lease of
-- host_operation.rs, which a deletion of the host waits for.
--
-- Base           shared types and lemmas: Rust's strings as lists of code points, `Result`, hash maps
--                as association lists, UTF-8 lengths, splitting and trimming.
-- HostOperation  crates/remotedeck-core/src/host_operation.rs. The state under the mutex is `Barrier`;
--                `begin`, `drop_lease`, `retire`, `wait_idle` and `restore` are its methods. Entries has
--                laws of the map of hosts, Steps the runs of clients.
-- Auth           apps/server/src/auth.rs. Defs has `Secrets`, `Auth` and the checks of headers, Requests
--                the requests (`exchange`, `require`, `issue_terminal`, `claim_terminal`, `internal`).
--                ConstantEq, Sessions, Launch, Tickets and Limits prove what they do.
-- Risk           crates/remotedeck-core/src/risk.rs. Words, Programs, Findings and ReadOnly are the
--                detectors, Analysis is `analyze_command`, Presets the shipped presets. Laws, Reasons,
--                Privilege and Allowlist, below Analysis, prove what it does.
-- Model          crates/remotedeck-core/src/model.rs and error.rs: the stored records and the errors.
-- Store          crates/remotedeck-core/src/store.rs. Validate, Proxies, Apply, Settings and Persisted
--                are its functions on drafts and states, Repository and Import the methods of
--                `AppRepository`; Consistent, Steps, Deletion, Blocking, Frozen, Jumps,
--                Lookup, Duplicates and Ranges prove what they do.
-- Session        crates/remotedeck-core/src/session.rs. Input is `TerminalInputState`, Stream is
--                `TerminalEventStream`, Handshake is `InitialConPtyCursorHandshake`. Registry,
--                Lifecycle and Ending are the state of `TerminalRegistry` and its changes, Transport
--                what a browser does with a terminal, Spawn how one starts. Counter, Control, Window,
--                Replay, Steps, Orderly, Races and Starts prove what they do.
-- Jobs           crates/remotedeck-core/src/command_job.rs. Checks and Request resolve what the page
--                asks for, Prepare analyses it with risk.rs and compares the confirmation, and Quote
--                writes it for a shell. Registry and Work are the entries of `CommandJobRegistry` and
--                the changes of a job, Run is a start under a lease of HostOperation, Execute the task
--                `execute_job` over a list of events. Confirmed, Started, Ends, Conclude, Task,
--                Output, Steps, Bounds and Graph prove what they do.
--
-- An operation is a step on the state that its lock guards, and an interleaving is a list of steps.
-- Where the source takes a lock twice, the end of `close` and of `abort_spawn` is a step of its own, but
-- `claim_terminal`, the writes to a terminal and a start that fails are composed without other threads
-- in between. Locks, `Arc` and notification are not modelled. The clock, fresh
-- UUIDs and random tokens are arguments of the operations that draw them. HTTP headers are a function
-- from names to values. The disk is a parameter of the repository's writes: serialization, the limit
-- on the file's size and the atomic replacement, each of which may fail; opening the repository with
-- recovery from the backup is not modelled. Error messages are left out, and an error is its kind.
-- Recursion is structural, also over the runs of whitespace, path and shell separators; the decimal
-- digits of a port are read with fuel, one more than the number, which is more than its digits.
-- The search for a free input lease has fuel for 65 rounds, one more than there can be leases, and the
-- pruning of snapshots has a round for each. The pruning of jobs has a round for each entry, and the
-- lossy decoding of UTF-8 in Base one for each byte. The parser of UUIDs is a parameter of the check of
-- a request's shape, and what a process does is an event of its task, whose timeouts are events too.
-- Whether a command line for ssh can be built is a parameter of a run, which has a runtime.
-- What a Rust integer type bounds is a natural number here: ports and intervals are only compared,
-- and the counter of leases saturates as in the source.
pub mod Base
pub mod HostOperation
pub mod Auth
pub mod Risk
pub mod Model
pub mod Store
pub mod Session
pub mod Jobs
