-- ===== src/Session/Starts.antt =====
-- The start of a terminal in session.rs: what it leaves behind when it fails, whatever fails.
use remote_deck.Base.{
  ℕ, ◌≡◌, refl, inl, inr, Bool, true, false, if◌then◌else◌, Text, ok, err, arith, text_eq_refl,
  Option-cases, Result-cases,
}
use remote_deck.Model.{AppError, AppResult, HostProfile}
use remote_deck.Session.Types.{TerminalSnapshot}
use remote_deck.Session.Stream.{Broadcast}
use remote_deck.Session.Registry.{
  TerminalRegistry, TerminalSpawnOptions, is_current_generation, is_running_generation,
  slot_generation, spawned_snapshot,
}
use remote_deck.Session.Lifecycle.{release_reservation, abort_spawn, abort_finish}
use remote_deck.Session.Steps.{slot-remove}
use remote_deck.Session.Spawn.{SpawnAnswers, aborted, spawn_committed, spawn_child, spawn_reserved}

module _ {W S C M : Type 0} where
  abort_spawn-frees :
      (terminate : C → AppResult (Unit {0})) (id : Text) (g : ℕ) (cleanup : C) (b : Bool)
      (cause : AppError) (r : TerminalRegistry W S C M)
      → terminate cleanup ≡ ok tt
      → is_current_generation id g (abort_spawn terminate id g cleanup b cause r).0 ≡ false
  unfolding abort_spawn abort_finish is_current_generation slot_generation
  abort_spawn-frees terminate id g cleanup b cause r h =
      ground (arith, slot-remove id id r.active, text_eq_refl id)

  release_reservation-frees :
      (id : Text) (g : ℕ) (r : TerminalRegistry W S C M)
      → is_running_generation id g r ≡ false
      → is_current_generation id g (release_reservation id g r) ≡ false
  unfolding release_reservation is_current_generation is_running_generation slot_generation
  release_reservation-frees id g r h = ground (arith, slot-remove id id r.active, text_eq_refl id)

module _ {W S C M R : Type 0} (channel : Broadcast S R) (answers : SpawnAnswers W S C M)
    (meanwhile : ℕ → TerminalRegistry W S C M → TerminalRegistry W S C M) (host : HostProfile)
    (options : TerminalSpawnOptions)
    (terminated : (cleanup : C) → answers.terminate_cleanup cleanup ≡ ok tt) where
  -- A start ends with its snapshot, or with an error and without its slot.
  unfoldable pub EndsWell : TerminalRegistry W S C M × AppResult TerminalSnapshot → Type 0
  EndsWell (t, ok snapshot) = snapshot ≡ spawned_snapshot host options
  EndsWell (t, err e) = is_current_generation options.session_id options.generation t ≡ false

  EndsWell-if :
      (b : Bool) (x y : TerminalRegistry W S C M × AppResult TerminalSnapshot)
      → EndsWell x
      → EndsWell y
      → EndsWell (if b then x else y)
  EndsWell-if true x y h k = h
  EndsWell-if false x y h k = k

  returns-EndsWell :
      (t : TerminalRegistry W S C M) → EndsWell (t, ok (spawned_snapshot host options))
  unfolding EndsWell
  returns-EndsWell t = refl

  aborted-EndsWell :
      (cleanup : C) (remove_snapshot : Bool) (cause : AppError) (r : TerminalRegistry W S C M)
      → EndsWell (aborted channel answers options cleanup remove_snapshot cause r)
  unfolding EndsWell
  aborted-EndsWell cleanup b cause r =
      abort_spawn-frees answers.terminate_cleanup options.session_id options.generation cleanup b
        cause r (terminated cleanup)

  spawn_committed-EndsWell :
      (writer : W) (cleanup : C) (master : M) (r : TerminalRegistry W S C M)
      → EndsWell (spawn_committed channel answers meanwhile host options writer cleanup master r)
  unfolding spawn_committed
  spawn_committed-EndsWell writer cleanup master r =
      search (EndsWell-if, aborted-EndsWell, returns-EndsWell)

  spawn_child-EndsWell :
      (cleanup : C) (master : M) (r : TerminalRegistry W S C M)
      → EndsWell (spawn_child channel answers meanwhile host options cleanup master r)
  unfolding spawn_child EndsWell
  spawn_child-EndsWell cleanup master r = elim (Option-cases answers.takes_writer) [
    | inl e ↦ rw e (search (EndsWell-if, aborted-EndsWell))
    | inr (writer, e) ↦ rw e (search (EndsWell-if, aborted-EndsWell, spawn_committed-EndsWell))
  ]

  -- Whatever the system answers and other threads do while a terminal starts, the start either ends with
  -- the snapshot of the terminal, or with an error and then no slot is left with its generation. That
  -- supposes that a process can be terminated, and that no other thread runs a terminal with the
  -- generation that is reserved.
  pub spawn_reserved-EndsWell :
      (before : TerminalRegistry W S C M)
      → is_running_generation options.session_id options.generation (meanwhile 0 before) ≡ false
      → EndsWell (spawn_reserved channel answers meanwhile host options before)
  unfolding spawn_reserved EndsWell spawn_child spawn_committed
  spawn_reserved-EndsWell before h =
      let freed =
        release_reservation-frees options.session_id options.generation (meanwhile 0 before) h in
      elim (Result-cases answers.terminal_command) [
        | inr (e, f) ↦ rw f freed
        | inl (_, f) ↦ elim (Option-cases answers.opens_pty) [
          | inl p ↦ rw (f, p) freed
          | inr (master, p) ↦ elim (Option-cases answers.spawns_child) [
            | inl c ↦ rw (f, p, c) freed
            | inr (cleanup, c) ↦
                rw (f, p, c) (spawn_child-EndsWell cleanup master (meanwhile 0 before))
          ]
        ]
      ]
