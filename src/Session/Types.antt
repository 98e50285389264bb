-- ===== src/Session/Types.antt =====
-- The records of terminals in model.rs, and the limits of session.rs.
use remote_deck.Base.{ℕ, ◌*◌, ◌^◌, ◌-◌, Option, Text}

abbrev pub max_chunk : ℕ
max_chunk = 64 * 1024

abbrev pub max_active_terminals : ℕ
max_active_terminals = 32

abbrev pub max_retained_terminals : ℕ
max_retained_terminals = 256

abbrev pub max_terminal_replay_bytes : ℕ
max_terminal_replay_bytes = 1024 * 1024

abbrev pub max_input_leases : ℕ
max_input_leases = 64

abbrev pub u64_max : ℕ
u64_max = 2 ^ 64 - 1

pub data TerminalState : Type 0 where
  starting running offline closed failed : TerminalState

-- Exit codes are not negative: they come from an unsigned code.
pub record TerminalSnapshot : Type 0 where
  pub session_id : Text
  pub generation : ℕ
  pub revision : ℕ
  pub host_id : Text
  pub alias : Text
  pub cwd : Text
  pub title : Text
  pub state : TerminalState
  pub exit_code : Option ℕ
  pub error : Option Text

pub data TerminalEventKind : Type 0 where
  started output replay_truncated exit error state : TerminalEventKind

pub record TerminalEvent : Type 0 where
  pub session_id : Text
  pub kind : TerminalEventKind
  pub content : Option Text
  pub exit_code : Option ℕ
  pub message : Option Text
  pub snapshot : Option TerminalSnapshot

pub record SequencedTerminalEvent : Type 0 where
  pub sequence : ℕ
  pub generation : ℕ
  pub event : TerminalEvent
