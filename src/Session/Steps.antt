-- ===== src/Session/Steps.antt =====
-- `TerminalRegistry` of session.rs under any interleaving of its steps: those of starting threads, of
-- requests to close, of readers and waiters, and of browsers.
use remote_deck.Base.{
  ℕ, zero, suc, ◌+◌, ◌≤◌, ◌<◌, ◌≡◌, refl, inl, inr, Bool, false, ◌||◌, Option, none, some, List, [],
  ◌∷◌, arith, Text, text_eq, text_eq_iff, Map, get, insert, remove, get-insert, get-remove, length,
  is_some_and, if◌then◌else◌, Option-cases, ok,
}
use remote_deck.Model.{HostProfile}
use remote_deck.Session.Types.{u64_max, TerminalSnapshot}
use remote_deck.Session.Input.{TerminalInputState}
use remote_deck.Session.Stream.{TerminalEventStream}
use remote_deck.Session.Registry.{
  TerminalSession, TerminalSlot, runs, TerminalRegistry, TerminalSpawnOptions, slot_generation,
  runs_generation, waits_for, is_running_generation, is_current_generation,
  running_session_in_state, reserve_slot, reserve_new, reserve_reconnect, register_spawn_cleanup,
  spawned_session, spawned_snapshot,
}
use remote_deck.Session.Lifecycle.{
  oldest_terminal, prune_loop, prune_terminal_records, commit_running, release_reservation,
  abort_finish, close_begin, close_finish,
}
use remote_deck.Session.Ending.{ExitStatus, finalize_exit, record_terminal_error, stop_all}
use remote_deck.Session.Transport.{with_session}

-- One step of some thread. A step of a browser changes of a session what is behind its generation.
pub data Step (W S C M : Type 0) : Type 0 where
  reserves reconnects : (id host_id : Text) → Step W S C M
  registers : (id : Text) → (generation : ℕ) → C → Step W S C M
  commits : HostProfile → TerminalSpawnOptions → W → S → C → M → Step W S C M
  gives_up : (id : Text) → (generation : ℕ) → Step W S C M
  aborts : (id : Text) → (generation : ℕ) → (remove_snapshot : Bool) → Step W S C M
  closes : (id : Text) → Step W S C M
  finishes_close : (id : Text) → (generation : ℕ) → Step W S C M
  exits : (id : Text) → (generation : ℕ) → ExitStatus → Step W S C M
  fails : (id : Text) → (generation : ℕ) → (message : Text) → Step W S C M
  stops : Step W S C M
  uses :
      (id : Text)
      → (expected : Option ℕ) → (TerminalInputState W → TerminalInputState W)
      → (TerminalEventStream S → TerminalEventStream S)
      → (M → M)
      → Step W S C M

module _ {W S C M : Type 0} where
  unfoldable pub step : TerminalRegistry W S C M → Step W S C M → TerminalRegistry W S C M
  step r (reserves id host_id) = (reserve_new id host_id r).0
  step r (reconnects id host_id) = (reserve_reconnect id host_id r).0
  step r (registers id generation cleanup) = (register_spawn_cleanup id generation cleanup r).0
  step r (commits host options writer sender cleanup master) =
      (commit_running options.session_id options.generation
        (spawned_session host options writer sender cleanup master) (spawned_snapshot host options)
        r).0
  step r (gives_up id generation) = release_reservation id generation r
  step r (aborts id generation remove_snapshot) = abort_finish id generation remove_snapshot r
  step r (closes id) = (close_begin id r).0
  step r (finishes_close id generation) = close_finish id generation r
  step r (exits id generation status) = (finalize_exit id generation status r).0
  step r (fails id generation message) = (record_terminal_error id generation message r).0
  step r stops = (stop_all r).0
  step r (uses id expected f g h) =
      (with_session id expected
        (λ s. (record s { input = f s.input; stream = g s.stream; master = h s.master }, ok tt))
        r).0

  unfoldable pub run_steps :
      TerminalRegistry W S C M → List (Step W S C M) → TerminalRegistry W S C M
  run_steps r [] = r
  run_steps r (s ∷ steps) = run_steps (step r s) steps

  abbrev pub empty_registry : TerminalRegistry W S C M
  empty_registry = record { active = []; snapshots = []; next_generation = 0 }

  -- The slots of a map after a change, in the form that the steps need.
  pub slot-insert :
      (j k : Text) (v : TerminalSlot W S C M) (m : Map (TerminalSlot W S C M))
      → get j (insert k v m) ≡ (if text_eq k j then some v else get j m)
  slot-insert = get-insert

  pub slot-remove :
      (j k : Text) (m : Map (TerminalSlot W S C M))
      → get j (remove k m) ≡ (if text_eq k j then none else get j m)
  slot-remove = get-remove

  pub slot-empty : (j : Text) → ◌≡◌ {A = Option (TerminalSlot W S C M)} (get j []) none
  unfolding get
  slot-empty j = refl

  pub active-prune_loop :
      (fuel limit : ℕ) (r : TerminalRegistry W S C M)
      → ((prune_loop fuel limit r).active ≡ r.active)
        × ((prune_loop fuel limit r).next_generation ≡ r.next_generation)
  unfolding prune_loop
  active-prune_loop zero limit r = (refl, refl)
  active-prune_loop (suc fuel) limit r =
      elim (Option-cases (oldest_terminal r.active r.snapshots)) [
        | inl e ↦ rw (e, prune_loop) (refl, refl)
        | inr ((id, _), e) ↦
            rw (e, prune_loop) ground
              (arith, active-prune_loop fuel limit (record r { snapshots = remove id r.snapshots }))
      ]

  pub active-commit_running :
      (id : Text) (generation : ℕ) (session : TerminalSession W S C M) (snapshot : TerminalSnapshot)
      (r : TerminalRegistry W S C M)
      → let t = (commit_running id generation session snapshot r).0 in
        (t.active ≡ (
          if is_some_and (get id r.active) (waits_for generation)
          then insert id (runs session) r.active
          else r.active))
        × (t.next_generation ≡ r.next_generation)
  unfolding commit_running prune_terminal_records
  active-commit_running id generation session snapshot r = ground (
    arith,
    active-prune_loop
        (length (insert id (record { generation = generation; snapshot = snapshot }) r.snapshots))
        256
        (record r {
          active = insert id (runs session) r.active;
          snapshots =
              insert id (record { generation = generation; snapshot = snapshot }) r.snapshots;
        }),
  )

  -- No terminal with this identifier and this generation runs, nor will it.
  abbrev pub NeverRuns : Text → ℕ → TerminalRegistry W S C M → Type 0
  NeverRuns id g r =
      (g ≤ r.next_generation)
      × (is_some_and (get id r.active) (λ slot. runs_generation g slot || waits_for g slot) ≡ false)

  pub step-NeverRuns :
      (id : Text) (g : ℕ) (r : TerminalRegistry W S C M) (s : Step W S C M)
      → r.next_generation < u64_max
      → NeverRuns id g r
      → NeverRuns id g (step r s) × ((step r s).next_generation ≤ r.next_generation + 1)
  unfolding step is_running_generation is_current_generation slot_generation
      running_session_in_state reserve_slot reserve_new reserve_reconnect register_spawn_cleanup
      release_reservation abort_finish close_begin close_finish finalize_exit record_terminal_error
      stop_all
  step-NeverRuns id g r (reserves i host) room k =
      grind (arith, slot-insert, slot-remove, text_eq_iff i id)
  step-NeverRuns id g r (reconnects i host) room k =
      grind (arith, slot-insert, slot-remove, text_eq_iff i id)
  step-NeverRuns id g r (registers i n c) room k =
      grind (arith, slot-insert, slot-remove, text_eq_iff i id)
  step-NeverRuns id g r (commits host o w c d m) room k = grind (
    arith,
    slot-insert,
    text_eq_iff o.session_id id,
    active-commit_running o.session_id o.generation (spawned_session host o w c d m)
        (spawned_snapshot host o) r,
  )
  step-NeverRuns id g r (gives_up i n) room k =
      grind (arith, slot-insert, slot-remove, text_eq_iff i id)
  step-NeverRuns id g r (aborts i n b) room k =
      grind (arith, slot-insert, slot-remove, text_eq_iff i id)
  step-NeverRuns id g r (closes i) room k =
      grind (arith, slot-insert, slot-remove, text_eq_iff i id)
  step-NeverRuns id g r (finishes_close i n) room k =
      grind (arith, slot-insert, slot-remove, text_eq_iff i id)
  step-NeverRuns id g r (exits i n x) room k =
      grind (arith, slot-insert, slot-remove, text_eq_iff i id)
  step-NeverRuns id g r (fails i n m) room k =
      grind (arith, slot-insert, slot-remove, text_eq_iff i id)
  step-NeverRuns id g r stops room k = grind (arith, slot-empty id)
  step-NeverRuns id g r (uses i e a b c) room k =
      grind (arith, slot-insert, slot-remove, text_eq_iff i id)
