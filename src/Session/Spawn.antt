-- ===== src/Session/Spawn.antt =====
-- `spawn_reserved` of session.rs and the requests that start a terminal. What the system answers to
-- each call is a parameter, and so is what other threads do to the registry meanwhile.
use remote_deck.Base.{
  ℕ, Bool, true, false, ◌&&◌, not, Option, none, some, if◌then◌else◌, Text, ok, err,
}
use remote_deck.Model.{AppError, AppResult, HostProfile, state, process}
use remote_deck.HostOperation.{Barrier, begin, drop_lease}
use remote_deck.Session.Types.{TerminalSnapshot, TerminalEvent, TerminalEventKind}
use remote_deck.Session.Input.{then_do}
use remote_deck.Session.Stream.{Broadcast, publish}
use remote_deck.Session.Registry.{
  TerminalRegistry, TerminalSpawnOptions, register_spawn_cleanup, spawned_session, spawned_snapshot,
  validate_size, reserve_new, reserve_reconnect, next_terminal_snapshot_revision,
}
use remote_deck.Session.Lifecycle.{commit_running, release_reservation, abort_spawn}
use remote_deck.Session.Transport.{with_session}

-- What the system answers: whether each call succeeds, and with what.
pub record SpawnAnswers (W S C M : Type 0) : Type 0 where
  pub terminal_command : AppResult (Unit {0})
  pub opens_pty : Option M
  pub spawns_child : Option C
  pub clones_reader : Bool
  pub takes_writer : Option W
  pub starts_reader_thread : Bool
  pub starts_waiter_thread : Bool
  pub sender : S
  pub reader_goes : Bool
  pub waiter_goes : Bool
  pub terminate_cleanup : C → AppResult (Unit {0})

abbrev started_event : TerminalSnapshot → TerminalEvent
started_event snapshot = record {
  session_id = snapshot.session_id;
  kind = TerminalEventKind.started;
  content = none;
  exit_code = none;
  message = none;
  snapshot = some snapshot;
}

module _ {W S C M R : Type 0} (channel : Broadcast S R) (answers : SpawnAnswers W S C M) where
  -- `return Err(self.abort_spawn(..))`.
  abbrev pub aborted :
      TerminalSpawnOptions
      → C
      → Bool
      → AppError
      → TerminalRegistry W S C M
      → TerminalRegistry W S C M × AppResult TerminalSnapshot
  aborted options cleanup remove_snapshot cause r =
      let (t, e) =
        abort_spawn answers.terminate_cleanup options.session_id options.generation cleanup
          remove_snapshot cause r in
      (t, err e)

  -- `publish_terminal_event` of the start: the stream is reached by the session of the slot.
  abbrev publish_started : TerminalSnapshot → TerminalRegistry W S C M → TerminalRegistry W S C M
  publish_started snapshot r =
      (with_session snapshot.session_id (some snapshot.generation)
        (λ session. (
          record session {
            stream = (publish channel session.generation (started_event snapshot) session.stream).0;
          },
          ok tt,
        ))
        r).0

  module _ (meanwhile : ℕ → TerminalRegistry W S C M → TerminalRegistry W S C M) where
    -- From the commit on.
    unfoldable pub spawn_committed :
        HostProfile
        → TerminalSpawnOptions
        → W
        → C
        → M
        → TerminalRegistry W S C M
        → TerminalRegistry W S C M × AppResult TerminalSnapshot
    spawn_committed host options writer cleanup master r =
        let snapshot = spawned_snapshot host options in
        let session = spawned_session host options writer answers.sender cleanup master in
        let (committed, can_commit) =
          commit_running options.session_id options.generation session snapshot r in
        let after = meanwhile 2 committed in
        let published = meanwhile 3 (publish_started snapshot after) in
        if not can_commit
        then aborted options cleanup false state after
        else if not answers.reader_goes
        then aborted options cleanup true process published
        else if not answers.waiter_goes
        then aborted options cleanup true process published
        else (published, ok snapshot)

    -- With a child process.
    unfoldable pub spawn_child :
        HostProfile
        → TerminalSpawnOptions
        → C
        → M
        → TerminalRegistry W S C M
        → TerminalRegistry W S C M × AppResult TerminalSnapshot
    spawn_child host options cleanup master r =
        let (registered, goes_on) =
          register_spawn_cleanup options.session_id options.generation cleanup r in
        let after = meanwhile 1 registered in
        if not goes_on
        then aborted options cleanup false state after
        else if not answers.clones_reader
        then aborted options cleanup false process after
        else elim answers.takes_writer [
          | none ↦ aborted options cleanup false process after
          | some writer ↦
              if not (answers.starts_reader_thread && answers.starts_waiter_thread)
              then aborted options cleanup false process after
              else spawn_committed host options writer cleanup master after
        ]

    unfoldable pub spawn_reserved :
        HostProfile
        → TerminalSpawnOptions
        → TerminalRegistry W S C M
        → TerminalRegistry W S C M × AppResult TerminalSnapshot
    spawn_reserved host options before =
        let r = meanwhile 0 before in
        let released = release_reservation options.session_id options.generation r in
        elim answers.terminal_command [
          | err e ↦ (released, err e)
          | ok _ ↦ elim answers.opens_pty [
            | none ↦ (released, err process)
            | some master ↦ elim answers.spawns_child [
              | none ↦ (released, err process)
              | some cleanup ↦ spawn_child host options cleanup master r
            ]
          ]
        ]

    abbrev leased :
        {A : Type 0}
        → Text
        → Barrier
        → (TerminalRegistry W S C M → TerminalRegistry W S C M × AppResult A)
        → TerminalRegistry W S C M
        → Barrier × TerminalRegistry W S C M × AppResult A
    leased host_id b f r = elim (begin host_id b).1 [
      | none ↦ ((begin host_id b).0, r, err state)
      | some lease ↦ (drop_lease lease (begin host_id b).0, (f r).0, (f r).1)
    ]

    -- `start` and `start_command`; the identifier is a fresh UUID.
    unfoldable pub start :
        Text
        → HostProfile
        → Option Text
        → ℕ
        → ℕ
        → Barrier
        → TerminalRegistry W S C M
        → Barrier × TerminalRegistry W S C M × AppResult TerminalSnapshot
    start id host title rows cols b r =
        leased host.id b
          (λ r. elim (validate_size rows cols) [
            | err e ↦ (r, err e)
            | ok _ ↦ then_do (reserve_new id host.id r) (λ generation.
                spawn_reserved host (record {
                  session_id = id;
                  generation = generation;
                  revision = 1;
                  title = title;
                }))
          ])
          r

    unfoldable pub reconnect :
        Text
        → HostProfile
        → ℕ
        → ℕ
        → Barrier
        → TerminalRegistry W S C M
        → Barrier × TerminalRegistry W S C M × AppResult TerminalSnapshot
    reconnect id host rows cols b r =
        leased host.id b
          (λ r. elim (validate_size rows cols) [
            | err e ↦ (r, err e)
            | ok _ ↦ then_do (reserve_reconnect id host.id r) (λ (previous, generation).
                spawn_reserved host (record {
                  session_id = id;
                  generation = generation;
                  revision = next_terminal_snapshot_revision previous;
                  title = some previous.title;
                }))
          ])
          r
