-- ===== src/Session/Tests.antt =====
-- The theorems on terminals at concrete runs: two browsers, three events, one terminal that starts.
use remote_deck.Base.{
  ◌≡◌, ◌≢◌, ◌⊎◌, ◌+◌, ◌++◌, refl, ℕ, true, false, none, some, List, [], ◌∷◌, arith, Text, codes,
  map_operations, byte_len, as_bytes, utf8_char, strip_prefix, ◌≤◌, get, ok, err, length, retain,
  ltb, max, if◌then◌else◌, leb,
}
use remote_deck.Model.{HostProfile, AuthMethod, default_advanced, validation, state}
use remote_deck.Session.Types.{
  TerminalEvent, TerminalEventKind, TerminalSnapshot, max_terminal_replay_bytes,
}
use remote_deck.Session.Input.{
  WriterOps, fresh_input, write, assert_active, resume_lease, take_over, issue_lease, successor,
  issue_loop, activate, release,
}
use remote_deck.Session.Input.Control.{
  takes_over, writes, calls_on, call, issue_lease_total, superseded_lease, resume_lease_iff,
}
use remote_deck.Session.Stream.{Broadcast, new_stream, attach, replay_event_bytes, truncated_event}
use remote_deck.Session.Stream.Window.{History, numbered}
use remote_deck.Session.Stream.Replay.{
  publish_all, publish_all_refines, attach_replays, dropped, IsWindow,
}
use remote_deck.Session.Handshake.{new_handshake, read_all, read_all_answers}
use remote_deck.Session.Registry.{
  TerminalRegistry, TerminalSpawnOptions, TerminalSession, is_running_generation,
  is_current_generation, slot_generation, reserve_new, reserve_slot, register_spawn_cleanup,
}
use remote_deck.Session.Lifecycle.{commit_running, prune_loop, prune_terminal_records, close_begin}
use remote_deck.Session.Ending.{ExitStatus, finalize_exit, exit_state, signed_code}
use remote_deck.Session.Steps.{
  Step, step, run_steps, empty_registry, reserves, registers, commits, closes,
}
use remote_deck.Session.Races.{
  Ignores, closed_start_never_runs, stale_generation, finalize_exit_once,
}
use remote_deck.Session.Spawn.{SpawnAnswers, spawn_reserved}
use remote_deck.Session.Starts.{EndsWell, spawn_reserved-EndsWell}

-- A writer that keeps the bytes.
abbrev tape : WriterOps (List ℕ)
tape = record {
  write_all = λ bytes written. (written ++ bytes, ok tt);
  flush = λ written. (written, ok tt);
}

inputs : Unit {0}
unfolding successor issue_loop issue_lease activate take_over resume_lease release assert_active
    write call calls_on
inputs = tt

issue_lease_total_example :
    ((leb 64 0 ≡ true)
      × (issue_lease (fresh_input {W = List ℕ} []) ≡ (fresh_input [], err validation)))
    ⊎ ((leb 64 0 ≡ false)
        × ((t : _ × ℕ) × (issue_lease (fresh_input {W = List ℕ} []) ≡ (t.0, ok t.1))))
issue_lease_total_example = issue_lease_total (fresh_input []) (omega arith)

-- The second browser has the input; what the first one writes is refused.
superseded_lease_example :
    let t =
      calls_on tape
        (calls_on tape (fresh_input []) (takes_over ∷ writes 1 (65 ∷ []) ∷ []))
        (takes_over ∷ writes 2 (66 ∷ []) ∷ []) in
    (write tape 1 (67 ∷ []) t ≡ (t, err validation)) × (assert_active 1 t ≡ err validation)
unfolding inputs
superseded_lease_example =
    superseded_lease tape [] (takes_over ∷ writes 1 (65 ∷ []) ∷ []) (writes 2 (66 ∷ []) ∷ [])
      (omega arith) 1 (omega arith) (67 ∷ [])

both_write :
    (calls_on tape (fresh_input []) (
      takes_over
      ∷ writes 1 (65 ∷ [])
      ∷ takes_over
      ∷ writes 1 (67 ∷ [])
      ∷ writes 2 (66 ∷ [])
      ∷ [])).writer
    ≡ 65 ∷ 66 ∷ []
unfolding inputs
both_write = refl

abbrev first : ℕ
first = 1

resume_lease_iff_example :
    let s = calls_on tape (fresh_input []) (takes_over ∷ []) in
    let t = (resume_lease first s).0 in
    ((first ≢ 0)
      × (first ≡ s.next_lease)
      × ((resume_lease first s).1 ≡ ok (first + 1))
      × (write tape first (67 ∷ []) t ≡ (t, err validation)))
    ⊎ (((first ≡ 0) ⊎ (first ≢ s.next_lease)) × (resume_lease first s ≡ (s, err state)))
resume_lease_iff_example = resume_lease_iff tape [] (takes_over ∷ []) (omega arith) first (67 ∷ [])

-- A channel that keeps what is sent.
abbrev kept_channel : Broadcast (List ℕ) ℕ
kept_channel = record {
  send = λ event sent. event.sequence ∷ sent;
  subscribe = λ sent. (sent, length sent);
}

abbrev output : Text → TerminalEvent
output content = record {
  session_id = codes "t1";
  kind = TerminalEventKind.output;
  content = some content;
  exit_code = none;
  message = none;
  snapshot = none;
}

abbrev printed : History
printed = (1, output (codes "ls")) ∷ (1, output (codes "a b")) ∷ []

publish_all_refines_example :
    IsWindow kept_channel (publish_all kept_channel (new_stream []) printed) printed
    × ((publish_all kept_channel (new_stream []) printed).replay_bytes ≤ max_terminal_replay_bytes)
unfolding replay_event_bytes byte_len as_bytes utf8_char
publish_all_refines_example =
    publish_all_refines kept_channel [] printed (omega arith, (omega arith, tt)) (omega arith)

attach_replays_example :
    (attach kept_channel
      (codes "t1")
      1
      (some first)
      (publish_all kept_channel (new_stream []) printed)).1
    ≡ (if ltb first (dropped printed)
        then truncated_event kept_channel (codes "t1") 1 (dropped printed) ∷ []
        else [])
      ++ retain (λ event. ltb (max first (dropped printed)) event.sequence) (numbered 0 printed)
unfolding replay_event_bytes byte_len as_bytes utf8_char
attach_replays_example =
    attach_replays kept_channel [] printed (omega arith, (omega arith, tt)) (omega arith)
      (codes "t1") 1 (some first)

read_all_answers_example :
    read_all (new_handshake true) ((27 ∷ []) ∷ codes "[6" ∷ codes "nok" ∷ []) ≡ (codes "ok", 1)
unfolding strip_prefix
read_all_answers_example = read_all_answers true ((27 ∷ []) ∷ codes "[6" ∷ codes "nok" ∷ [])

abbrev box : HostProfile
box = record {
  schema_version = 2;
  id = codes "h1";
  alias = codes "box";
  hostname = codes "10.0.0.5";
  port = 22;
  username = codes "ann";
  auth_method = AuthMethod.interactive;
  identity_file = none;
  proxy_jump = none;
  default_workspace = codes "~";
  groups = [];
  advanced = default_advanced;
  monitor_enabled = true;
  created_at = 1;
  updated_at = 2;
}

abbrev t1 : Text
t1 = codes "t1"

-- Processes and master PTYs are numbers here.
abbrev TestStep : Type 0
TestStep = Step (List ℕ) (List ℕ) ℕ ℕ

abbrev options : TerminalSpawnOptions
options = record { session_id = t1; generation = 1; revision = 1; title = none }

abbrev started : List TestStep
started = reserves t1 (codes "h1") ∷ registers t1 1 7 ∷ commits box options [] [] 7 9 ∷ []

registry : Unit {0}
unfolding step run_steps reserve_new reserve_slot register_spawn_cleanup commit_running prune_loop
    prune_terminal_records is_running_generation is_current_generation slot_generation close_begin
    map_operations
registry = tt

closed_start_never_runs_example :
    let t =
      run_steps
        (step (run_steps empty_registry (reserves t1 (codes "h1") ∷ [])) (closes t1))
        started in
    (is_running_generation t1 1 t ≡ false)
    × ((session : TerminalSession (List ℕ) (List ℕ) ℕ ℕ) (snapshot : TerminalSnapshot)
        → commit_running t1 1 session snapshot t ≡ (t, false))
unfolding registry
closed_start_never_runs_example =
    closed_start_never_runs (reserves t1 (codes "h1") ∷ []) started (omega arith) t1 1 (codes "h1")
      false none refl

started_runs : is_running_generation t1 1 (run_steps empty_registry started) ≡ true
unfolding registry
started_runs = refl

stale_generation_example : Ignores kept_channel t1 2 (run_steps empty_registry started)
unfolding registry
stale_generation_example =
    stale_generation kept_channel t1 2 (run_steps empty_registry started) refl

abbrev success : ExitStatus
success = record { exit_code = 0; signal = none }

finalize_exit_once_example :
    let r = run_steps empty_registry started in
    let t = (finalize_exit t1 1 success r).0 in
    (get t1 t.active ≡ none)
    × ((snapshot : TerminalSnapshot) × (get t1 t.snapshots
          ≡ some (record { generation = 1; snapshot = snapshot }))
        × (snapshot.state ≡ exit_state (signed_code 0))
        × (snapshot.exit_code ≡ signed_code 0)
        × (snapshot.error ≡ none)
        × ((event : TerminalEvent) × ((finalize_exit t1 1 success r).1 ≡ some event)
            × (event.snapshot ≡ some snapshot)))
    × (finalize_exit t1 1 success t ≡ (t, none))
unfolding registry
finalize_exit_once_example = finalize_exit_once started (omega arith) t1 1 success success refl

-- A system that answers everything, but gives no writer.
abbrev answers : SpawnAnswers (List ℕ) (List ℕ) ℕ ℕ
answers = record {
  terminal_command = ok tt;
  opens_pty = some 9;
  spawns_child = some 7;
  clones_reader = true;
  takes_writer = none;
  starts_reader_thread = true;
  starts_waiter_thread = true;
  sender = [];
  reader_goes = true;
  waiter_goes = true;
  terminate_cleanup = λ cleanup. ok tt;
}

abbrev reserved : TerminalRegistry (List ℕ) (List ℕ) ℕ ℕ
reserved = run_steps empty_registry (reserves t1 (codes "h1") ∷ [])

spawn_reserved-EndsWell_example :
    EndsWell kept_channel answers
      (λ n r. r)
      box
      options
      (λ cleanup. refl)
      (spawn_reserved kept_channel answers (λ n r. r) box options reserved)
unfolding registry
spawn_reserved-EndsWell_example =
    spawn_reserved-EndsWell kept_channel answers (λ n r. r) box options (λ cleanup. refl) reserved
      refl
