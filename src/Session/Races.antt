-- ===== src/Session/Races.antt =====
-- `TerminalRegistry` of session.rs: requests that come late, or while a terminal starts or ends.
use remote_deck.Base.{
  ℕ, ◌+◌, ◌≤◌, ◌<◌, ◌≡◌, refl, inl, inr, Bool, true, false, Option, none, some, List, [], ◌∷◌,
  arith, Text, text_eq_refl, get, length, if◌then◌else◌, err, Option-cases,
}
use remote_deck.Model.{AppResult, not_found}
use remote_deck.Session.Types.{u64_max, TerminalSnapshot, TerminalEvent}
use remote_deck.Session.Input.{WriterOps}
use remote_deck.Session.Stream.{Broadcast}
use remote_deck.Session.Registry.{
  revise_terminal_snapshot, TerminalSession, starts, TerminalRecord, TerminalRegistry,
  slot_generation, is_running_generation, is_current_generation, running_session_in_state,
  register_spawn_cleanup,
}
use remote_deck.Session.Lifecycle.{
  commit_running, release_reservation, abort_finish, close_begin, close_finish,
}
use remote_deck.Session.Ending.{
  ExitStatus, exited, signed_code, exit_state, exit_event, finalize_exit, record_terminal_error,
}
use remote_deck.Session.Transport.{
  attach_with_expected_generation, write_input, release_input, resize_input, input_is_current,
}
use remote_deck.Session.Steps.{
  Step, step, run_steps, empty_registry, closes, NeverRuns, step-NeverRuns, slot-insert,
  slot-remove,
}
use remote_deck.Session.Orderly.{run_steps-IsOrderly, record-insert}

-- A revision changes nothing else of a snapshot.
revised_lem :
    (changed : Bool) (now : TerminalSnapshot)
    → let s = if changed then revise_terminal_snapshot now else now in
      (s.state ≡ now.state) × (s.exit_code ≡ now.exit_code) × (s.error ≡ now.error)
unfolding revise_terminal_snapshot
revised_lem true now = (refl, refl, refl)
revised_lem false now = (refl, refl, refl)

exited_lem :
    (status : ExitStatus) (snapshot : TerminalSnapshot)
    → let now = exited status snapshot in
      (now.state ≡ exit_state (signed_code status.exit_code))
      × (now.exit_code ≡ signed_code status.exit_code)
      × (now.error ≡ status.signal)
unfolding exited
exited_lem status snapshot = revised_lem _ (record snapshot {
  state = exit_state (signed_code status.exit_code);
  exit_code = signed_code status.exit_code;
  error = status.signal;
})

module _ {W S C M : Type 0} where
  run_steps-NeverRuns :
      (id : Text) (g : ℕ) (r : TerminalRegistry W S C M) (steps : List (Step W S C M))
      → r.next_generation + length steps < u64_max
      → NeverRuns id g r
      → NeverRuns id g (run_steps r steps)
  unfolding run_steps
  run_steps-NeverRuns id g r [] room k = k
  run_steps-NeverRuns id g r (s ∷ steps) room k =
      let (kept, high) = step-NeverRuns id g r s (omega arith) k in
      run_steps-NeverRuns id g (step r s) steps (omega arith) kept

  NeverRuns-commit_running :
      (id : Text) (g : ℕ) (r : TerminalRegistry W S C M)
      → NeverRuns id g r
      → (is_running_generation id g r ≡ false)
        × ((session : TerminalSession W S C M) (snapshot : TerminalSnapshot)
            → commit_running id g session snapshot r ≡ (r, false))
  unfolding is_running_generation commit_running
  NeverRuns-commit_running id g r k = (ground arith, λ session snapshot. ground arith)

  close-NeverRuns :
      (id : Text) (g : ℕ) (host_id : Text) (asked : Bool) (cleanup : Option C)
      (r : TerminalRegistry W S C M)
      → get id r.active ≡ some (starts g host_id asked cleanup)
      → g ≤ r.next_generation
      → NeverRuns id g (step r (closes id))
        × ((step r (closes id)).next_generation ≡ r.next_generation)
  unfolding step close_begin
  close-NeverRuns id g host_id asked none r e low =
      ground (arith, slot-insert id id (starts g host_id true none) r.active, text_eq_refl id)
  close-NeverRuns id g host_id asked (some c) r e low =
      ground (arith, slot-insert id id (starts g host_id true (some c)) r.active, text_eq_refl id)

  -- A terminal that is asked to close while it starts never runs: after any steps, the asking, and any
  -- later steps, fewer than 2^64 - 1 in all, its generation does not run and is not committed.
  pub closed_start_never_runs :
      (before later : List (Step W S C M))
      → length before + length later < u64_max
      → (id : Text) (g : ℕ) (host_id : Text) (asked : Bool) (cleanup : Option C)
      → let r = run_steps empty_registry before in
        get id r.active ≡ some (starts g host_id asked cleanup)
        → let t = run_steps (step r (closes id)) later in
          (is_running_generation id g t ≡ false)
          × ((session : TerminalSession W S C M) (snapshot : TerminalSnapshot)
              → commit_running id g session snapshot t ≡ (t, false))
  unfolding slot_generation
  closed_start_never_runs before later room id g host_id asked cleanup e =
      let r = run_steps empty_registry before in
      let (orderly, most) = run_steps-IsOrderly before (omega arith) in
      let (k, same) =
        close-NeverRuns id g host_id asked cleanup r e (ground (arith, (orderly id).0)) in
      NeverRuns-commit_running id g (run_steps (step r (closes id)) later)
        (run_steps-NeverRuns id g (step r (closes id)) later (omega arith) k)

  -- Each request for a generation of a terminal is refused, and changes nothing.
  abbrev pub Ignores : {R : Type 0} → Broadcast S R → Text → ℕ → TerminalRegistry W S C M → Type 0
  Ignores channel id g r =
      ((cleanup : C) → register_spawn_cleanup id g cleanup r ≡ (r, false))
      × ((session : TerminalSession W S C M) (snapshot : TerminalSnapshot)
          → commit_running id g session snapshot r ≡ (r, false))
      × (release_reservation id g r ≡ r)
      × ((remove_snapshot : Bool) → abort_finish id g remove_snapshot r ≡ r)
      × (close_finish id g r ≡ r)
      × ((status : ExitStatus) → finalize_exit id g status r ≡ (r, none))
      × ((message : Text) → record_terminal_error id g message r ≡ (r, none))
      × ((io : WriterOps W) (lease : ℕ) (bytes : List ℕ)
          → write_input io id g lease bytes r ≡ (r, err not_found))
      × ((resize : ℕ → ℕ → M → M × AppResult (Unit {0})) (lease rows cols : ℕ)
          → resize_input resize id g lease rows cols r ≡ (r, err not_found))
      × ((lease : ℕ)
          → (release_input id g lease r ≡ (r, err not_found))
            × (input_is_current id g lease r ≡ false))
      × ((since resume : Option ℕ)
          → attach_with_expected_generation channel id (some g) since resume r ≡ (r, err not_found))

  -- A request with a generation that is not the one of the terminal's slot changes nothing: no start
  -- goes on, nothing is removed or recorded, and no browser writes, resizes, releases or attaches.
  pub stale_generation :
      {R : Type 0}
      → (channel : Broadcast S R) (id : Text) (g : ℕ) (r : TerminalRegistry W S C M)
      → is_current_generation id g r ≡ false
      → Ignores channel id g r
  unfolding is_current_generation slot_generation is_running_generation running_session_in_state
      register_spawn_cleanup commit_running release_reservation abort_finish close_finish
      finalize_exit record_terminal_error write_input resize_input release_input input_is_current
      attach_with_expected_generation
  stale_generation channel id g r h = (
    λ cleanup. ground arith,
    λ session snapshot. ground arith,
    ground arith,
    λ remove_snapshot. ground arith,
    ground arith,
    λ status. ground arith,
    λ message. ground arith,
    λ io lease bytes. ground arith,
    λ resize lease rows cols. ground arith,
    λ lease. (ground arith, ground arith),
    λ since resume. ground arith,
  )

  finalize_exit_paired :
      (id : Text) (g : ℕ) (status again : ExitStatus) (r : TerminalRegistry W S C M)
      → (found : TerminalRecord) → get id r.snapshots ≡ some found
      → found.generation ≡ g
      → is_running_generation id g r ≡ true
      → let t = (finalize_exit id g status r).0 in
        let snapshot = exited status found.snapshot in
        (get id t.active ≡ none)
        × (get id t.snapshots ≡ some (record { generation = g; snapshot = snapshot }))
        × ((finalize_exit id g status r).1 ≡ some (exit_event id snapshot))
        × (finalize_exit id g again t ≡ (t, none))
  unfolding finalize_exit is_running_generation
  finalize_exit_paired id g status again r found e same run =
      let snapshot = exited status found.snapshot in
      ground (
        arith,
        slot-remove id id r.active,
        record-insert id id (record { generation = found.generation; snapshot = snapshot })
            r.snapshots,
        text_eq_refl id,
      )

  -- When the process of a running terminal exits, in any reachable state, its slot is free, its snapshot
  -- is closed for exit code 0 and else offline, with the code and the signal, and an event says so; a
  -- second report of the exit changes nothing.
  pub finalize_exit_once :
      (steps : List (Step W S C M))
      → length steps < u64_max
      → (id : Text) (g : ℕ) (status again : ExitStatus)
      → let r = run_steps empty_registry steps in
        is_running_generation id g r ≡ true
        → let t = (finalize_exit id g status r).0 in
          (get id t.active ≡ none)
          × ((snapshot : TerminalSnapshot) × (get id t.snapshots
                ≡ some (record { generation = g; snapshot = snapshot }))
              × (snapshot.state ≡ exit_state (signed_code status.exit_code))
              × (snapshot.exit_code ≡ signed_code status.exit_code)
              × (snapshot.error ≡ status.signal)
              × ((event : TerminalEvent) × ((finalize_exit id g status r).1 ≡ some event)
                  × (event.snapshot ≡ some snapshot)))
          × (finalize_exit id g again t ≡ (t, none))
  finalize_exit_once steps room id g status again run =
      let r = run_steps empty_registry steps in
      let paired = (((run_steps-IsOrderly steps room).0 id).1 g) run in
      elim (Option-cases (get id r.snapshots)) [
        | inl e ↦ absurd (ground (arith, paired))
        | inr (found, e) ↦
            let (free, kept, told, once) =
              finalize_exit_paired id g status again r found e (ground (arith, paired)) run in
            let (state, code, error) = exited_lem status found.snapshot in
            (free, (exited status found.snapshot, kept, state, code, error, (_, told, refl)), once)
      ]
