-- ===== src/Session/Orderly.antt =====
-- `TerminalRegistry` of session.rs: what holds after every sequence of steps, and what follows for the
-- requests that race with each other.
use remote_deck.Base.{
  ℕ, zero, suc, ◌+◌, ◌≤◌, ◌<◌, ◌≡◌, refl, inl, inr, true, false, ◌&&◌, none, some, List, [], ◌∷◌,
  arith, Text, text_eq, text_eq_iff, Map, get, insert, remove, get-insert, get-remove, length,
  is_some, is_some_and, ltb, ◌==◌, if◌then◌else◌, Option-cases,
}
use remote_deck.Session.Types.{u64_max, TerminalSnapshot}
use remote_deck.Session.Registry.{
  TerminalSession, TerminalSlot, runs, TerminalRecord, TerminalRegistry, slot_generation, waits_for,
  is_running_generation, is_current_generation, running_session_in_state, reserve_slot, reserve_new,
  reserve_reconnect, register_spawn_cleanup, spawned_session, spawned_snapshot,
}
use remote_deck.Session.Lifecycle.{
  oldest_terminal, prune_loop, prune_terminal_records, commit_running, release_reservation,
  abort_finish, close_begin, close_finish,
}
use remote_deck.Session.Ending.{finalize_exit, record_terminal_error, stop_all}
use remote_deck.Session.Steps.{
  Step, step, run_steps, empty_registry, closes, slot-insert, slot-remove, slot-empty,
  active-prune_loop, active-commit_running, reserves, reconnects, registers, commits, gives_up,
  aborts, finishes_close, exits, fails, stops, uses,
}

pub record-insert :
    (j k : Text) (v : TerminalRecord) (m : Map TerminalRecord)
    → get j (insert k v m) ≡ (if text_eq k j then some v else get j m)
record-insert = get-insert

pub record-remove :
    (j k : Text) (m : Map TerminalRecord)
    → get j (remove k m) ≡ (if text_eq k j then none else get j m)
record-remove = get-remove

module _ {W S C M : Type 0} where
  -- No slot has a generation that is still to be drawn.
  abbrev pub Drawn : Text → TerminalRegistry W S C M → Type 0
  Drawn id r =
      is_some_and (get id r.active) (λ slot. ltb r.next_generation (slot_generation slot)) ≡ false

  Drawn-step :
      (id : Text) (r : TerminalRegistry W S C M) (s : Step W S C M)
      → r.next_generation < u64_max
      → Drawn id r
      → Drawn id (step r s)
        × (r.next_generation ≤ (step r s).next_generation)
        × ((step r s).next_generation ≤ r.next_generation + 1)
  unfolding step is_running_generation is_current_generation slot_generation
      running_session_in_state reserve_slot reserve_new reserve_reconnect register_spawn_cleanup
      release_reservation abort_finish close_begin close_finish finalize_exit record_terminal_error
      stop_all
  Drawn-step id r (reserves i host) room k =
      grind (arith, slot-insert, slot-remove, text_eq_iff i id)
  Drawn-step id r (reconnects i host) room k =
      grind (arith, slot-insert, slot-remove, text_eq_iff i id)
  Drawn-step id r (registers i n c) room k =
      grind (arith, slot-insert, slot-remove, text_eq_iff i id)
  Drawn-step id r (commits host o w c d m) room k = grind (
    arith,
    slot-insert,
    text_eq_iff o.session_id id,
    active-commit_running o.session_id o.generation (spawned_session host o w c d m)
        (spawned_snapshot host o) r,
  )
  Drawn-step id r (gives_up i n) room k = grind (arith, slot-insert, slot-remove, text_eq_iff i id)
  Drawn-step id r (aborts i n b) room k = grind (arith, slot-insert, slot-remove, text_eq_iff i id)
  Drawn-step id r (closes i) room k = grind (arith, slot-insert, slot-remove, text_eq_iff i id)
  Drawn-step id r (finishes_close i n) room k =
      grind (arith, slot-insert, slot-remove, text_eq_iff i id)
  Drawn-step id r (exits i n x) room k = grind (arith, slot-insert, slot-remove, text_eq_iff i id)
  Drawn-step id r (fails i n m) room k = grind (arith, slot-insert, slot-remove, text_eq_iff i id)
  Drawn-step id r stops room k = grind (arith, slot-empty id)
  Drawn-step id r (uses i e a b c) room k =
      grind (arith, slot-insert, slot-remove, text_eq_iff i id)

  -- What is pruned is the record of a terminal without a slot.
  oldest_terminal-none :
      (active : Map (TerminalSlot W S C M)) (records : Map TerminalRecord) (id : Text) (n : ℕ)
      → oldest_terminal active records ≡ some (id, n)
      → get id active ≡ none
  oldest_terminal-none active [] id n e = absurd cc
  oldest_terminal-none active ((i, found) ∷ records) id n e =
      elim (Option-cases (oldest_terminal active records)) [
        | inl none_older ↦ ground (arith, none_older)
        | inr ((j, m), found) ↦ ground (arith, found, oldest_terminal-none active records j m found)
      ]

  get-prune_loop :
      (fuel limit : ℕ) (r : TerminalRegistry W S C M) (id : Text)
      → is_some (get id r.active) ≡ true
      → get id (prune_loop fuel limit r).snapshots ≡ get id r.snapshots
  unfolding prune_loop
  get-prune_loop zero limit r id h = refl
  get-prune_loop (suc fuel) limit r id h =
      elim (Option-cases (oldest_terminal r.active r.snapshots)) [
        | inl e ↦ rw (e, prune_loop) refl
        | inr ((i, n), e) ↦
            rw (e, prune_loop) ground
              (
                arith,
                get-prune_loop fuel limit (record r { snapshots = remove i r.snapshots }) id h,
                oldest_terminal-none r.active r.snapshots i n e,
                record-remove id i r.snapshots,
                text_eq_iff i id,
              )
      ]

  committed :
      ℕ
      → TerminalSession W S C M
      → TerminalSnapshot
      → Text
      → TerminalRegistry W S C M
      → TerminalRegistry W S C M
  committed g session snapshot i r = record r {
    active = insert i (runs session) r.active;
    snapshots = insert i (record { generation = g; snapshot = snapshot }) r.snapshots;
  }

  get-commit_running :
      (id i : Text) (g : ℕ) (session : TerminalSession W S C M) (snapshot : TerminalSnapshot)
      (r : TerminalRegistry W S C M)
      → let t = (commit_running i g session snapshot r).0 in
        is_some (get id t.active) ≡ true
        → get id t.snapshots ≡ (
            if is_some_and (get i r.active) (waits_for g) && text_eq i id
            then some (record { generation = g; snapshot = snapshot })
            else get id r.snapshots)
  unfolding commit_running prune_terminal_records committed
  get-commit_running id i g session snapshot r h =
      let next = committed g session snapshot i r in
      let fuel = length next.snapshots in
      ground (
        arith,
        active-prune_loop fuel 256 next,
        get-prune_loop fuel 256 next id,
        slot-insert id i (runs session) r.active,
        record-insert id i (record { generation = g; snapshot = snapshot }) r.snapshots,
      )

  -- A terminal that runs has the snapshot of its generation.
  abbrev pub Paired : Text → TerminalRegistry W S C M → Type 0
  Paired id r =
      (g : ℕ)
      → is_running_generation id g r ≡ true
      → is_some_and (get id r.snapshots) (λ found. found.generation == g) ≡ true

  Paired-step :
      (id : Text) (r : TerminalRegistry W S C M) (s : Step W S C M)
      → Paired id r
      → Paired id (step r s)
  unfolding step is_running_generation is_current_generation slot_generation
      running_session_in_state reserve_slot reserve_new reserve_reconnect register_spawn_cleanup
      release_reservation abort_finish close_begin close_finish finalize_exit record_terminal_error
      stop_all
  Paired-step id r (reserves i host) k g run = grind (arith, k g, slot-insert, text_eq_iff i id)
  Paired-step id r (reconnects i host) k g run = grind (arith, k g, slot-insert, text_eq_iff i id)
  Paired-step id r (registers i n c) k g run = grind (arith, k g, slot-insert, text_eq_iff i id)
  Paired-step id r (commits host o w c d m) k g run = grind (
    arith,
    k g,
    slot-insert,
    text_eq_iff o.session_id id,
    active-commit_running o.session_id o.generation (spawned_session host o w c d m)
        (spawned_snapshot host o) r,
    get-commit_running id o.session_id o.generation (spawned_session host o w c d m)
        (spawned_snapshot host o) r,
  )
  Paired-step id r (gives_up i n) k g run =
      grind (arith, k g, slot-remove, record-remove, text_eq_iff i id)
  Paired-step id r (aborts i n b) k g run =
      grind (arith, k g, slot-remove, record-remove, text_eq_iff i id)
  Paired-step id r (closes i) k g run =
      grind (arith, k g, slot-insert, record-remove, text_eq_iff i id)
  Paired-step id r (finishes_close i n) k g run =
      grind (arith, k g, slot-remove, record-remove, text_eq_iff i id)
  Paired-step id r (exits i n x) k g run =
      grind (arith, k g, slot-remove, record-insert, text_eq_iff i id)
  Paired-step id r (fails i n m) k g run = grind (arith, k g, record-insert, text_eq_iff i id)
  Paired-step id r stops k g run = grind (arith, slot-empty id)
  Paired-step id r (uses i e a b c) k g run = grind (arith, k g, slot-insert, text_eq_iff i id)

  -- What holds of each terminal after any steps.
  abbrev pub IsOrderly : TerminalRegistry W S C M → Type 0
  IsOrderly r = (id : Text) → Drawn id r × Paired id r

  run_steps-IsOrderly_from :
      (r : TerminalRegistry W S C M) (steps : List (Step W S C M))
      → r.next_generation + length steps < u64_max
      → IsOrderly r
      → IsOrderly (run_steps r steps)
        × ((run_steps r steps).next_generation ≤ r.next_generation + length steps)
  unfolding run_steps
  run_steps-IsOrderly_from r [] room k = (k, omega arith)
  run_steps-IsOrderly_from r (s ∷ steps) room k =
      let (_, low, high) = Drawn-step [] r s (omega arith) (k []).0 in
      let (all, most) =
        run_steps-IsOrderly_from (step r s) steps (omega arith)
          (λ id. ((Drawn-step id r s (omega arith) (k id).0).0, Paired-step id r s (k id).1)) in
      (all, omega arith)

  pub run_steps-IsOrderly :
      (steps : List (Step W S C M))
      → length steps < u64_max
      → IsOrderly (run_steps empty_registry steps)
        × ((run_steps empty_registry steps).next_generation ≤ length steps)
  unfolding get is_running_generation
  run_steps-IsOrderly steps room =
      let (k, most) =
        run_steps-IsOrderly_from empty_registry steps (omega arith)
          (λ id. (refl, λ g h. absurd cc)) in
      (k, omega arith)
