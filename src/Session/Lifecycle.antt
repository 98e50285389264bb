-- ===== src/Session/Lifecycle.antt =====
-- `TerminalRegistry` of session.rs: a terminal that has started runs, fails, exits and is closed. The
-- killing of a process is a parameter.
use remote_deck.Base.{
  ℕ, zero, suc, Bool, true, false, ◌||◌, not, Option, none, some, [], ◌∷◌, ltb, leb, ◌==◌,
  if◌then◌else◌, is_some_and, is_some, Text, Map, get, insert, remove, length, ok, err,
}
use remote_deck.Model.{AppError, AppResult, process, not_found}
use remote_deck.Session.Types.{TerminalSnapshot, max_retained_terminals}
use remote_deck.Session.Input.{then_do}
use remote_deck.Session.Registry.{
  TerminalSession, TerminalSlot, starts, runs, TerminalRecord, TerminalRegistry,
  is_current_generation, waits_for,
}

-- `min_by_key` on the generation: the first of the least.
abbrev older : Text × TerminalRecord → Option (Text × ℕ) → Option (Text × ℕ)
older (id, r) none = some (id, r.generation)
older (id, r) (some (other, least)) =
    if leb r.generation least then some (id, r.generation) else some (other, least)

module _ {W S C M : Type 0} where
  abbrev pub oldest_terminal : Map (TerminalSlot W S C M) → Map TerminalRecord → Option (Text × ℕ)
  oldest_terminal active [] = none
  oldest_terminal active ((id, r) ∷ records) =
      if is_some (get id active)
      then oldest_terminal active records
      else older (id, r) (oldest_terminal active records)

  -- On fuel: each round removes a record.
  unfoldable pub prune_loop : ℕ → ℕ → TerminalRegistry W S C M → TerminalRegistry W S C M
  prune_loop zero limit r = r
  prune_loop (suc fuel) limit r = elim (oldest_terminal r.active r.snapshots) [
    | none ↦ r
    | some (id, _) ↦
        let rest = prune_loop fuel limit (record r { snapshots = remove id r.snapshots }) in
        if ltb limit (length r.snapshots) then rest else r
  ]

  unfoldable pub prune_terminal_records : ℕ → TerminalRegistry W S C M → TerminalRegistry W S C M
  unfolding prune_loop
  prune_terminal_records limit r = prune_loop (length r.snapshots) limit r

  unfoldable pub commit_running :
      Text
      → ℕ
      → TerminalSession W S C M
      → TerminalSnapshot
      → TerminalRegistry W S C M
      → TerminalRegistry W S C M × Bool
  unfolding prune_terminal_records
  commit_running id generation session snapshot r =
      if not (is_some_and (get id r.active) (waits_for generation)) then (r, false) else (
        prune_terminal_records max_retained_terminals (record r {
          active = insert id (runs session) r.active;
          snapshots =
              insert id (record { generation = generation; snapshot = snapshot }) r.snapshots;
        }),
        true,
      )

  abbrev pub close_requested_for : ℕ → TerminalSlot W S C M → Option Bool
  close_requested_for generation (starts current host_id close_requested cleanup) =
      if current == generation then some close_requested else none
  close_requested_for generation (runs session) = none

  -- A slot is removed, and its snapshot too when the test holds.
  abbrev pub forget : Text → Bool → TerminalRegistry W S C M → TerminalRegistry W S C M
  forget id snapshot_too r = record r {
    active = remove id r.active;
    snapshots = if snapshot_too then remove id r.snapshots else r.snapshots;
  }

  unfoldable pub release_reservation :
      Text → ℕ → TerminalRegistry W S C M → TerminalRegistry W S C M
  release_reservation id generation r = elim (get id r.active) [
    | none ↦ r
    | some slot ↦ elim (close_requested_for generation slot) [
      | none ↦ r
      | some close_requested ↦ forget id close_requested r
    ]
  ]

  -- The end of `abort_spawn`, once its process is gone.
  abbrev abort_slot :
      Text → ℕ → Bool → TerminalRegistry W S C M → TerminalSlot W S C M → TerminalRegistry W S C M
  abort_slot id generation remove_snapshot r (starts current host_id close_requested cleanup) =
      if current == generation then forget id (remove_snapshot || close_requested) r else r
  abort_slot id generation remove_snapshot r (runs session) =
      if session.generation == generation then forget id remove_snapshot r else r

  unfoldable pub abort_finish :
      Text → ℕ → Bool → TerminalRegistry W S C M → TerminalRegistry W S C M
  abort_finish id generation remove_snapshot r = elim (get id r.active) [
    | none ↦ r
    | some slot ↦ abort_slot id generation remove_snapshot r slot
  ]

  -- `terminate_cleanup` is a parameter. The source releases the lock around it; here no other thread
  -- acts meanwhile, and `abort_finish` alone is the step of an interleaving.
  unfoldable pub abort_spawn :
      (C → AppResult (Unit {0}))
      → Text
      → ℕ
      → C
      → Bool
      → AppError
      → TerminalRegistry W S C M
      → TerminalRegistry W S C M × AppError
  unfolding is_current_generation abort_finish
  abort_spawn terminate_cleanup id generation cleanup remove_snapshot cause r =
      if not (is_current_generation id generation r)
      then (r, cause)
      else elim (terminate_cleanup cleanup) [
        | err e ↦ (r, process)
        | ok _ ↦ (abort_finish id generation remove_snapshot r, cause)
      ]

  -- The first step of `close`: what is to be terminated, if anything.
  abbrev close_slot :
      Text
      → TerminalRegistry W S C M
      → TerminalSlot W S C M
      → TerminalRegistry W S C M × AppResult (Option (ℕ × C))
  close_slot id r (starts generation host_id close_requested none) =
      (record r { active = insert id (starts generation host_id true none) r.active }, ok none)
  close_slot id r (starts generation host_id close_requested (some cleanup)) = (
    record r { active = insert id (starts generation host_id true (some cleanup)) r.active },
    ok (some (generation, cleanup)),
  )
  close_slot id r (runs session) = (r, ok (some (session.generation, session.cleanup)))

  unfoldable pub close_begin :
      Text → TerminalRegistry W S C M → TerminalRegistry W S C M × AppResult (Option (ℕ × C))
  close_begin id r = elim (get id r.active) [
    | some slot ↦ close_slot id r slot
    | none ↦
        if is_some (get id r.snapshots)
        then (record r { snapshots = remove id r.snapshots }, ok none)
        else (r, err not_found)
  ]

  -- The last step of `close`.
  unfoldable pub close_finish : Text → ℕ → TerminalRegistry W S C M → TerminalRegistry W S C M
  unfolding is_current_generation
  close_finish id generation r =
      if is_current_generation id generation r then forget id true r else r

  abbrev close_rest :
      (C → AppResult (Unit {0}))
      → Text
      → Option (ℕ × C)
      → TerminalRegistry W S C M
      → TerminalRegistry W S C M × AppResult (Unit {0})
  close_rest terminate_cleanup id none r = (r, ok tt)
  close_rest terminate_cleanup id (some (generation, cleanup)) r =
      elim (terminate_cleanup cleanup) [
        | err e ↦ (r, err e)
        | ok _ ↦ (close_finish id generation r, ok tt)
      ]

  unfoldable pub close :
      (C → AppResult (Unit {0}))
      → Text
      → TerminalRegistry W S C M
      → TerminalRegistry W S C M × AppResult (Unit {0})
  unfolding close_begin close_finish
  close terminate_cleanup id r = then_do (close_begin id r) (close_rest terminate_cleanup id)
