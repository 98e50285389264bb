-- ===== src/Session/Input.antt =====
-- `TerminalInputState` of session.rs: who may write to a terminal. The writer of the PTY is a
-- parameter; each call answers with the new state and a result.
pub mod Counter
pub mod Control
use remote_deck.Base.{
  ℕ, zero, suc, ◌+◌, ◌%◌, ◌^◌, max, Bool, true, false, ◌&&◌, ◌||◌, not, Option, none, some, List,
  [], ◌∷◌, any, retain, leb, ltb, ◌==◌, if◌then◌else◌, length, Result, ok, err, is_some_and,
}
use remote_deck.Model.{AppError, validation, state, panic, AppResult}
use remote_deck.Session.Types.{max_chunk, max_input_leases}

-- `std::io::Write` on a writer of type `W`.
pub record WriterOps (W : Type 0) : Type 0 where
  pub write_all : List ℕ → W → W × AppResult (Unit {0})
  pub flush : W → W × AppResult (Unit {0})

pub record TerminalInputState (W : Type 0) : Type 0 where
  pub writer : W
  pub active_lease : Option ℕ
  pub issued_leases : List ℕ
  pub next_lease : ℕ

-- A `TerminalInputState` as a terminal starts with it.
abbrev pub fresh_input : {W : Type 0} → W → TerminalInputState W
fresh_input writer = record {
  writer = writer;
  active_lease = none;
  issued_leases = [];
  next_lease = 0;
}

-- A step that may fail, after a step that may fail; both change the state.
abbrev pub then_do :
    {S A B : Type 0} → S × AppResult A → (A → S → S × AppResult B) → S × AppResult B
then_do (s, ok a) f = f a s
then_do (s, err e) f = (s, err e)

abbrev pub holds : ℕ → List ℕ → Bool
holds lease leases = any (λ l. l == lease) leases

-- `next.wrapping_add(1).max(1)` on `u64`.
unfoldable pub successor : ℕ → ℕ
successor n = max ((n + 1) % 2 ^ 64) 1

module _ {W : Type 0} where
  -- The loop of `issue_lease` on fuel; `none` means that the fuel ran out.
  unfoldable pub issue_loop : ℕ → TerminalInputState W → Option (TerminalInputState W × ℕ)
  issue_loop zero s = none
  issue_loop (suc fuel) s =
      let next = successor s.next_lease in
      let rest = issue_loop fuel (record s { next_lease = next }) in
      if holds next s.issued_leases
      then rest
      else some (record s { next_lease = next; issued_leases = next ∷ s.issued_leases }, next)

  abbrev pub loop_result :
      TerminalInputState W → Option (TerminalInputState W × ℕ) → TerminalInputState W × AppResult ℕ
  loop_result s none = (s, err panic)
  loop_result s (some (s', lease)) = (s', ok lease)

  -- One round more than there can be leases is fuel enough.
  unfoldable pub issue_lease : TerminalInputState W → TerminalInputState W × AppResult ℕ
  issue_lease s =
      if leb max_input_leases (length s.issued_leases)
      then (s, err validation)
      else loop_result s (issue_loop (suc max_input_leases) s)

  unfoldable pub activate : ℕ → TerminalInputState W → TerminalInputState W × AppResult (Unit {0})
  activate lease s = if not (holds lease s.issued_leases) then (s, err validation) else (
    record s {
      active_lease = some lease;
      issued_leases = retain (λ candidate. leb lease candidate) s.issued_leases;
    },
    ok tt,
  )

  abbrev pub activate_it : ℕ → TerminalInputState W → TerminalInputState W × AppResult ℕ
  activate_it lease s = then_do (activate lease s) (λ _ s'. (s', ok lease))

  -- The branch of `attach_with_expected_generation` that takes over.
  unfoldable pub take_over : TerminalInputState W → TerminalInputState W × AppResult ℕ
  take_over s = then_do (issue_lease s) activate_it

  unfoldable pub resume_lease : ℕ → TerminalInputState W → TerminalInputState W × AppResult ℕ
  resume_lease previous_lease s =
      if previous_lease == 0 || not (s.next_lease == previous_lease)
      then (s, err state)
      else then_do (issue_lease s) activate_it

  abbrev pub is_active : ℕ → TerminalInputState W → Bool
  is_active lease s = is_some_and s.active_lease (λ l. l == lease)

  unfoldable pub release : ℕ → TerminalInputState W → TerminalInputState W
  release lease s = record s {
    issued_leases = retain (λ l. not (l == lease)) s.issued_leases;
    active_lease = if is_active lease s then none else s.active_lease;
  }

  unfoldable pub assert_active : ℕ → TerminalInputState W → AppResult (Unit {0})
  assert_active lease s =
      if is_active lease s && holds lease s.issued_leases then ok tt else err validation

  module _ (io : WriterOps W) where
    abbrev pub write_and_flush : List ℕ → W → W × AppResult (Unit {0})
    write_and_flush bytes writer = then_do (io.write_all bytes writer) (λ _ w. io.flush w)

    unfoldable pub write :
        ℕ → List ℕ → TerminalInputState W → TerminalInputState W × AppResult (Unit {0})
    write lease bytes s =
        if ltb max_chunk (length bytes)
        then (s, err validation)
        else if not (is_active lease s) || not (holds lease s.issued_leases)
        then (s, err validation)
        else (
          record s { writer = (write_and_flush bytes s.writer).0 },
          (write_and_flush bytes s.writer).1,
        )

    -- The answer `ESC [ 1 ; 1 R` to the cursor query that starts a ConPTY.
    unfoldable pub write_initial_conpty_cursor_response :
        TerminalInputState W → TerminalInputState W × AppResult (Unit {0})
    write_initial_conpty_cursor_response s =
        let response : List ℕ = 27 ∷ b'[' ∷ b'1' ∷ b';' ∷ b'1' ∷ b'R' ∷ [] in
        (
          record s { writer = (write_and_flush response s.writer).0 },
          (write_and_flush response s.writer).1,
        )
