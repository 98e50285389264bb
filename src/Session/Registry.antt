-- ===== src/Session/Registry.antt =====
-- `TerminalRegistry` of session.rs: the slots of active terminals, the snapshots of all terminals, and
-- how a terminal starts. Writers, channels, processes and PTY handles are parameters. Each operation
-- under the lock of the state is one step; a generation is drawn in the step that uses it.
use remote_deck.Base.{
  ℕ, ◌+◌, ◌%◌, ◌^◌, max, min, Bool, false, ◌&&◌, ◌||◌, not, Option, none, some, ltb, leb, ◌==◌,
  if◌then◌else◌, is_some_and, is_none_or, is_some, Text, text_eq, Map, get, insert, length, ok, err,
  fail_if, codes, unwrap_or, ◌++◌,
}
use remote_deck.Model.{AppResult, HostProfile, state, validation, not_found}
use remote_deck.Session.Types.{TerminalState, TerminalSnapshot, u64_max, max_active_terminals}
use remote_deck.Session.Input.{TerminalInputState, fresh_input}
use remote_deck.Session.Stream.{TerminalEventStream, new_stream}
use TerminalState.{running}

-- With a writer, a sender of events, a process to clean up and a master PTY.
pub record TerminalSession (W S C M : Type 0) : Type 0 where
  pub generation : ℕ
  pub host_id : Text
  pub input : TerminalInputState W
  pub master : M
  pub cleanup : C
  pub stream : TerminalEventStream S

pub data TerminalSlot (W S C M : Type 0) : Type 0 where
  starts :
      (generation : ℕ)
      → (host_id : Text) → (close_requested : Bool) → (cleanup : Option C) → TerminalSlot W S C M
  runs : TerminalSession W S C M → TerminalSlot W S C M

pub record TerminalRecord : Type 0 where
  pub generation : ℕ
  pub snapshot : TerminalSnapshot

pub record TerminalRegistry (W S C M : Type 0) : Type 0 where
  pub active : Map (TerminalSlot W S C M)
  pub snapshots : Map TerminalRecord
  pub next_generation : ℕ

pub record TerminalSpawnOptions : Type 0 where
  pub session_id : Text
  pub generation : ℕ
  pub revision : ℕ
  pub title : Option Text

unfoldable pub validate_size : ℕ → ℕ → AppResult (Unit {0})
validate_size rows cols =
    fail_if (ltb rows 2 || ltb 1000 rows || ltb cols 2 || ltb 1000 cols) validation

unfoldable pub revise_terminal_snapshot : TerminalSnapshot → TerminalSnapshot
revise_terminal_snapshot snapshot = record snapshot {
  revision = min (snapshot.revision + 1) u64_max;
}

unfoldable pub next_terminal_snapshot_revision : TerminalSnapshot → ℕ
next_terminal_snapshot_revision previous = max (min (previous.revision + 1) u64_max) 1

module _ {W S C M : Type 0} where
  -- `TerminalSlot::generation` and `TerminalSlot::host_id`.
  unfoldable pub slot_generation : TerminalSlot W S C M → ℕ
  slot_generation (starts generation host_id close_requested cleanup) = generation
  slot_generation (runs session) = session.generation

  unfoldable pub slot_host_id : TerminalSlot W S C M → Text
  slot_host_id (starts generation host_id close_requested cleanup) = host_id
  slot_host_id (runs session) = session.host_id

  unfoldable pub is_current_generation : Text → ℕ → TerminalRegistry W S C M → Bool
  unfolding slot_generation
  is_current_generation id generation r =
      is_some_and (get id r.active) (λ slot. slot_generation slot == generation)

  abbrev pub runs_generation : ℕ → TerminalSlot W S C M → Bool
  runs_generation generation (starts _ _ _ _) = false
  runs_generation generation (runs session) = session.generation == generation

  unfoldable pub is_running_generation : Text → ℕ → TerminalRegistry W S C M → Bool
  is_running_generation id generation r = is_some_and (get id r.active) (runs_generation generation)

  abbrev pub running_slot : Option ℕ → TerminalSlot W S C M → Option (TerminalSession W S C M)
  running_slot expected (starts _ _ _ _) = none
  running_slot expected (runs session) =
      if is_none_or expected (λ generation. generation == session.generation)
      then some session
      else none

  unfoldable pub running_session_in_state :
      Text → Option ℕ → TerminalRegistry W S C M → AppResult (TerminalSession W S C M)
  running_session_in_state id expected r = elim (get id r.active) [
    | none ↦ err not_found
    | some slot ↦ elim (running_slot expected slot) [
      | none ↦ err not_found
      | some session ↦ ok session
    ]
  ]

  unfoldable pub reserve_slot :
      Text → Text → ℕ → TerminalRegistry W S C M → TerminalRegistry W S C M × AppResult (Unit {0})
  reserve_slot id host_id generation r =
      if leb max_active_terminals (length r.active)
      then (r, err validation)
      else (record r { active = insert id (starts generation host_id false none) r.active }, ok tt)

  -- `fetch_add(1).wrapping_add(1)` on the counter.
  abbrev pub drawn : TerminalRegistry W S C M → TerminalRegistry W S C M
  drawn r = record r { next_generation = (r.next_generation + 1) % 2 ^ 64 }

  abbrev pub with_result :
      {A B : Type 0}
      → A
      → TerminalRegistry W S C M × AppResult B
      → TerminalRegistry W S C M × AppResult A
  with_result a (r, ok b) = (r, ok a)
  with_result a (r, err e) = (r, err e)

  unfoldable pub reserve_new :
      Text → Text → TerminalRegistry W S C M → TerminalRegistry W S C M × AppResult ℕ
  reserve_new id host_id before =
      let r = drawn before in
      if is_some (get id r.active) || is_some (get id r.snapshots)
      then (r, err state)
      else with_result r.next_generation (reserve_slot id host_id r.next_generation r)

  unfoldable pub reserve_reconnect :
      Text
      → Text
      → TerminalRegistry W S C M
      → TerminalRegistry W S C M × AppResult (TerminalSnapshot × ℕ)
  reserve_reconnect id host_id before =
      let r = drawn before in
      elim (get id r.snapshots) [
        | none ↦ (r, err not_found)
        | some previous ↦
            if not (text_eq previous.snapshot.host_id host_id)
            then (r, err state)
            else if is_some (get id r.active)
            then (r, err validation)
            else with_result (previous.snapshot, r.next_generation)
                (reserve_slot id host_id r.next_generation r)
      ]

  abbrev pub register_in :
      Text
      → ℕ
      → C
      → TerminalRegistry W S C M
      → TerminalSlot W S C M
      → TerminalRegistry W S C M × Bool
  register_in id generation cleanup r (runs session) = (r, false)
  register_in id generation cleanup r (starts current host_id close_requested registered) =
      if current == generation
      then (
        record r {
          active = insert id (starts current host_id close_requested (some cleanup)) r.active;
        },
        not close_requested,
      )
      else (r, false)

  unfoldable pub register_spawn_cleanup :
      Text → ℕ → C → TerminalRegistry W S C M → TerminalRegistry W S C M × Bool
  register_spawn_cleanup id generation cleanup r = elim (get id r.active) [
    | none ↦ (r, false)
    | some slot ↦ register_in id generation cleanup r slot
  ]

  abbrev pub waits_for : ℕ → TerminalSlot W S C M → Bool
  waits_for generation (starts current host_id close_requested cleanup) =
      current == generation && not close_requested
  waits_for generation (runs session) = false

  -- The session and the snapshot that `spawn_reserved` makes of its options.
  abbrev pub spawned_session :
      HostProfile → TerminalSpawnOptions → W → S → C → M → TerminalSession W S C M
  spawned_session host options writer sender cleanup master = record {
    generation = options.generation;
    host_id = host.id;
    input = fresh_input writer;
    master = master;
    cleanup = cleanup;
    stream = new_stream sender;
  }

abbrev pub spawned_snapshot : HostProfile → TerminalSpawnOptions → TerminalSnapshot
spawned_snapshot host options = record {
  session_id = options.session_id;
  generation = options.generation;
  revision = options.revision;
  host_id = host.id;
  alias = host.alias;
  cwd = host.default_workspace;
  title = unwrap_or options.title (host.alias ++ codes " · " ++ host.default_workspace);
  state = running;
  exit_code = none;
  error = none;
}
