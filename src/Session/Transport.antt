-- ===== src/Session/Transport.antt =====
-- `TerminalRegistry` of session.rs: what a browser does with a running terminal. The session is found
-- and used in one step.
use remote_deck.Base.{ℕ, Bool, false, Option, none, some, List, Text, insert, ok, err, is_ok}
use remote_deck.Model.{AppResult}
use remote_deck.Session.Types.{SequencedTerminalEvent}
use remote_deck.Session.Input.{
  WriterOps, TerminalInputState, take_over, resume_lease, release, assert_active, write, then_do,
}
use remote_deck.Session.Stream.{Broadcast, attach}
use remote_deck.Session.Registry.{
  TerminalSession, runs, TerminalRegistry, running_session_in_state, validate_size,
}

pub record TerminalAttachment (R : Type 0) : Type 0 where
  pub generation : ℕ
  pub lease : ℕ
  pub replay : List SequencedTerminalEvent
  pub receiver : R

abbrev lease_for :
    {W : Type 0} → Option ℕ → TerminalInputState W → TerminalInputState W × AppResult ℕ
lease_for none input = take_over input
lease_for (some previous_lease) input = resume_lease previous_lease input

module _ {W S C M : Type 0} where
  -- A session is shared; what is done to it is seen in its slot.
  abbrev put_session :
      Text → TerminalSession W S C M → TerminalRegistry W S C M → TerminalRegistry W S C M
  put_session id session r = record r { active = insert id (runs session) r.active }

  -- `running_session`, and then a change of the session.
  abbrev pub with_session :
      {A : Type 0}
      → Text
      → Option ℕ
      → (TerminalSession W S C M → TerminalSession W S C M × AppResult A)
      → TerminalRegistry W S C M
      → TerminalRegistry W S C M × AppResult A
  with_session id expected f r = elim (running_session_in_state id expected r) [
    | err e ↦ (r, err e)
    | ok session ↦ (put_session id (f session).0 r, (f session).1)
  ]

  abbrev pub on_input :
      {A : Type 0}
      → (TerminalInputState W → TerminalInputState W × AppResult A)
      → TerminalSession W S C M
      → TerminalSession W S C M × AppResult A
  on_input f session = (record session { input = (f session.input).0 }, (f session.input).1)

  abbrev attached :
      {R : Type 0}
      → Broadcast S R
      → Text
      → Option ℕ
      → ℕ
      → TerminalSession W S C M
      → TerminalSession W S C M × AppResult (TerminalAttachment R)
  attached channel id since lease session =
      let (stream, replay, receiver) = attach channel id session.generation since session.stream in
      (
        record session { stream = stream },
        ok (record {
          generation = session.generation;
          lease = lease;
          replay = replay;
          receiver = receiver;
        }),
      )

  unfoldable pub attach_with_expected_generation :
      {R : Type 0}
      → Broadcast S R
      → Text
      → Option ℕ
      → Option ℕ
      → Option ℕ
      → TerminalRegistry W S C M
      → TerminalRegistry W S C M × AppResult (TerminalAttachment R)
  attach_with_expected_generation channel id expected since resume_from_lease r =
      with_session id expected
        (λ session.
          then_do (on_input (lease_for resume_from_lease) session) (attached channel id since))
        r

  unfoldable pub write_input :
      WriterOps W
      → Text
      → ℕ
      → ℕ
      → List ℕ
      → TerminalRegistry W S C M
      → TerminalRegistry W S C M × AppResult (Unit {0})
  write_input io id generation lease bytes r =
      with_session id (some generation) (on_input (write io lease bytes)) r

  unfoldable pub input_is_current : Text → ℕ → ℕ → TerminalRegistry W S C M → Bool
  input_is_current id generation lease r = elim (running_session_in_state id (some generation) r) [
    | err _ ↦ false
    | ok session ↦ is_ok (assert_active lease session.input)
  ]

  unfoldable pub release_input :
      Text → ℕ → ℕ → TerminalRegistry W S C M → TerminalRegistry W S C M × AppResult (Unit {0})
  release_input id generation lease r =
      with_session id (some generation) (on_input (λ input. (release lease input, ok tt))) r

  -- The resizing of a master PTY is a parameter.
  unfoldable pub resize_session :
      (ℕ → ℕ → M → M × AppResult (Unit {0}))
      → ℕ
      → ℕ
      → TerminalSession W S C M
      → TerminalSession W S C M × AppResult (Unit {0})
  resize_session resize rows cols session = elim (validate_size rows cols) [
    | err e ↦ (session, err e)
    | ok _ ↦ (
      record session { master = (resize rows cols session.master).0 },
      (resize rows cols session.master).1,
    )
  ]

  unfoldable pub resize_input :
      (ℕ → ℕ → M → M × AppResult (Unit {0}))
      → Text
      → ℕ
      → ℕ
      → ℕ
      → ℕ
      → TerminalRegistry W S C M
      → TerminalRegistry W S C M × AppResult (Unit {0})
  resize_input resize id generation lease rows cols r =
      with_session id (some generation)
        (λ session. elim (assert_active lease session.input) [
          | err e ↦ (session, err e)
          | ok _ ↦ resize_session resize rows cols session
        ])
        r
