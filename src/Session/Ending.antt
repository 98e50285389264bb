-- ===== src/Session/Ending.antt =====
-- `TerminalRegistry` of session.rs: the exit of a process, the errors of a terminal, and the end of all.
use remote_deck.Base.{
  ℕ, ◌^◌, Bool, true, false, ◌&&◌, ◌||◌, not, Option, none, some, List, [], ◌∷◌, ltb, ◌==◌,
  if◌then◌else◌, Text, text_eq, Map, get, insert, remove,
}
use remote_deck.Session.Types.{TerminalState, TerminalSnapshot, TerminalEvent, TerminalEventKind}
use remote_deck.Session.Registry.{
  TerminalSlot, starts, runs, TerminalRegistry, is_running_generation, revise_terminal_snapshot,
}

abbrev same_state : TerminalState → TerminalState → Bool
same_state TerminalState.starting TerminalState.starting = true
same_state TerminalState.running TerminalState.running = true
same_state TerminalState.offline TerminalState.offline = true
same_state TerminalState.closed TerminalState.closed = true
same_state TerminalState.failed TerminalState.failed = true
same_state _ _ = false

abbrev same_code : Option ℕ → Option ℕ → Bool
same_code none none = true
same_code (some a) (some b) = a == b
same_code _ _ = false

abbrev same_text : Option Text → Option Text → Bool
same_text none none = true
same_text (some a) (some b) = text_eq a b
same_text _ _ = false

-- What `portable_pty` says of a process that has ended.
pub record ExitStatus : Type 0 where
  pub exit_code : ℕ
  pub signal : Option Text

-- `i32::try_from(status.exit_code()).ok()`.
abbrev pub signed_code : ℕ → Option ℕ
signed_code code = if ltb code (2 ^ 31) then some code else none

abbrev pub exit_state : Option ℕ → TerminalState
exit_state code = if same_code code (some 0) then TerminalState.closed else TerminalState.offline

unfoldable pub exited : ExitStatus → TerminalSnapshot → TerminalSnapshot
unfolding revise_terminal_snapshot
exited status snapshot =
    let exit_code = signed_code status.exit_code in
    let changed =
      not (same_state snapshot.state (exit_state exit_code))
      || not (same_code snapshot.exit_code exit_code)
      || not (same_text snapshot.error status.signal) in
    let now = record snapshot {
      state = exit_state exit_code;
      exit_code = exit_code;
      error = status.signal;
    } in
    if changed then revise_terminal_snapshot now else now

abbrev pub exit_event : Text → TerminalSnapshot → TerminalEvent
exit_event id snapshot = record {
  session_id = id;
  kind = TerminalEventKind.exit;
  content = none;
  exit_code = snapshot.exit_code;
  message = snapshot.error;
  snapshot = some snapshot;
}

abbrev failed_with : Text → TerminalSnapshot → TerminalSnapshot
failed_with message snapshot = record snapshot {
  state = TerminalState.failed;
  error = some message;
}

abbrev error_event : Text → Text → TerminalSnapshot → TerminalEvent
error_event id message snapshot = record {
  session_id = id;
  kind = TerminalEventKind.error;
  content = none;
  exit_code = none;
  message = some message;
  snapshot = some snapshot;
}

module _ {W S C M : Type 0} where
  unfoldable pub finalize_exit :
      Text
      → ℕ
      → ExitStatus
      → TerminalRegistry W S C M
      → TerminalRegistry W S C M × Option TerminalEvent
  unfolding is_running_generation exited
  finalize_exit id generation status r = elim (get id r.snapshots) [
    | none ↦ (r, none)
    | some found ↦
        if is_running_generation id generation r && found.generation == generation
        then (
          record r {
            active = remove id r.active;
            snapshots =
                insert id (record found { snapshot = exited status found.snapshot }) r.snapshots;
          },
          some (exit_event id (exited status found.snapshot)),
        )
        else (r, none)
  ]

  unfoldable pub record_terminal_error :
      Text → ℕ → Text → TerminalRegistry W S C M → TerminalRegistry W S C M × Option TerminalEvent
  unfolding is_running_generation revise_terminal_snapshot
  record_terminal_error id generation message r = elim (get id r.snapshots) [
    | none ↦ (r, none)
    | some found ↦
        let snapshot = revise_terminal_snapshot (failed_with message found.snapshot) in
        if not (is_running_generation id generation r)
        then (r, none)
        else if not (found.generation == generation)
        then (r, none)
        else if same_state found.snapshot.state TerminalState.failed
            && same_text found.snapshot.error (some message)
        then (r, none)
        else (
          record r { snapshots = insert id (record found { snapshot = snapshot }) r.snapshots },
          some (error_event id message snapshot),
        )
  ]

  abbrev slot_cleanup : TerminalSlot W S C M → Option C
  slot_cleanup (starts generation host_id close_requested cleanup) = cleanup
  slot_cleanup (runs session) = some session.cleanup

  unfoldable pub all_cleanups : Map (TerminalSlot W S C M) → List C
  all_cleanups [] = []
  all_cleanups ((id, slot) ∷ slots) = elim (slot_cleanup slot) [
    | none ↦ all_cleanups slots
    | some cleanup ↦ cleanup ∷ all_cleanups slots
  ]

  -- The step of `stop_all` under the lock, with the processes that it then terminates.
  unfoldable pub stop_all : TerminalRegistry W S C M → TerminalRegistry W S C M × List C
  unfolding all_cleanups
  stop_all r = (record r { active = []; snapshots = [] }, all_cleanups r.active)
