-- ===== src/Session/Stream.antt =====
-- `TerminalEventStream` of session.rs: the events of a terminal are numbered, sent to the attached
-- browsers, and kept for later attachments up to a number of bytes. The broadcast channel, of the
-- library tokio, is a parameter.
pub mod Window
pub mod Replay
use remote_deck.Base.{
  ℕ, ◌+◌, ◌-◌, min, Bool, true, false, Option, none, some, List, [], ◌∷◌, ◌++◌, retain, ltb,
  if◌then◌else◌, is_some_and, unwrap_or, Text, byte_len, codes, decimal,
}
use remote_deck.Session.Types.{
  TerminalEvent, SequencedTerminalEvent, TerminalEventKind, u64_max, max_terminal_replay_bytes,
}
use remote_deck.Session.Input.{successor}
use TerminalEventKind.{replay_truncated}

-- `broadcast::Sender` and `broadcast::Receiver`.
pub record Broadcast (Sender Receiver : Type 0) : Type 0 where
  pub send : SequencedTerminalEvent → Sender → Sender
  pub subscribe : Sender → Sender × Receiver

pub record TerminalEventStream (Sender : Type 0) : Type 0 where
  pub sender : Sender
  pub replay : List SequencedTerminalEvent
  pub replay_bytes : ℕ
  pub next_sequence : ℕ
  pub dropped_through : Option ℕ

-- `TerminalEventStream::new`.
abbrev pub new_stream : {Sender : Type 0} → Sender → TerminalEventStream Sender
new_stream sender = record {
  sender = sender;
  replay = [];
  replay_bytes = 0;
  next_sequence = 0;
  dropped_through = none;
}

unfoldable pub replay_event_bytes : TerminalEvent → ℕ
replay_event_bytes event = elim event.content [ none ↦ 0 | some content ↦ byte_len content ]

-- What the loop of `publish` changes.
pub record Kept : Type 0 where
  pub replay : List SequencedTerminalEvent
  pub replay_bytes : ℕ
  pub dropped_through : Option ℕ

-- The loop of `publish`, which drops the oldest events while the rest is too long.
unfoldable pub drop_oldest : List SequencedTerminalEvent → ℕ → Option ℕ → Kept
drop_oldest [] bytes dropped = record {
  replay = [];
  replay_bytes = if ltb max_terminal_replay_bytes bytes then 0 else bytes;
  dropped_through = dropped;
}
drop_oldest (removed ∷ rest) bytes dropped =
    let less =
      drop_oldest rest (bytes - replay_event_bytes removed.event) (some removed.sequence) in
    if ltb max_terminal_replay_bytes bytes
    then less
    else record { replay = removed ∷ rest; replay_bytes = bytes; dropped_through = dropped }

abbrev pub truncation_message : Text
truncation_message = codes "terminal replay is limited to the most recent 1048576 bytes"

module _ {Sender Receiver : Type 0} (channel : Broadcast Sender Receiver) where
  unfoldable pub publish :
      ℕ
      → TerminalEvent
      → TerminalEventStream Sender
      → TerminalEventStream Sender × SequencedTerminalEvent
  publish generation event s =
      let sequence = successor s.next_sequence in
      let sequenced : SequencedTerminalEvent = record {
        sequence = sequence;
        generation = generation;
        event = event;
      } in
      let kept =
        drop_oldest (s.replay ++ sequenced ∷ [])
          (min (s.replay_bytes + replay_event_bytes event) u64_max) s.dropped_through in
      (
        record {
          sender = channel.send sequenced s.sender;
          replay = kept.replay;
          replay_bytes = kept.replay_bytes;
          next_sequence = sequence;
          dropped_through = kept.dropped_through;
        },
        sequenced,
      )

  -- The event that tells a browser what it can no longer replay.
  abbrev pub truncated_event : Text → ℕ → ℕ → SequencedTerminalEvent
  truncated_event session_id generation dropped = record {
    sequence = dropped;
    generation = generation;
    event = record {
      session_id = session_id;
      kind = replay_truncated;
      content = none;
      exit_code = none;
      message = some truncation_message;
      snapshot = none;
    };
  }

  unfoldable pub attach :
      Text
      → ℕ
      → Option ℕ
      → TerminalEventStream Sender
      → TerminalEventStream Sender × List SequencedTerminalEvent × Receiver
  attach session_id generation since s =
      let (sender, receiver) = channel.subscribe s.sender in
      let replay_is_truncated =
        is_some_and s.dropped_through
          (λ dropped. elim since [ none ↦ true | some sequence ↦ ltb sequence dropped ]) in
      let after = unwrap_or since 0 in
      let marker =
        if replay_is_truncated
        then truncated_event session_id generation (unwrap_or s.dropped_through 0) ∷ []
        else [] in
      (
        record s { sender = sender },
        marker ++ retain (λ event. ltb after event.sequence) s.replay,
        receiver,
      )
