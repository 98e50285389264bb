-- ===== src/Session/Input/Control.antt =====
-- Who controls the input of a terminal in session.rs, over any sequence of calls on its input state.
use remote_deck.Base.{
  ℕ, suc, ◌+◌, ◌≤◌, ◌<◌, ◌≡◌, ◌≢◌, refl, ◌⊎◌, inl, inr, true, false, ◌||◌, not, none, some, List,
  [], ◌∷◌, length, leb, ◌==◌, if◌then◌else◌, Bool-cases, ok, err, arith,
}
use remote_deck.Model.{validation, state}
use remote_deck.Session.Types.{u64_max, max_chunk}
use remote_deck.Session.Input.{
  WriterOps, TerminalInputState, fresh_input, issue_loop, issue_lease, activate, take_over,
  resume_lease, release, assert_active, write, write_and_flush,
  write_initial_conpty_cursor_response,
}
use remote_deck.Session.Input.Counter.{successor_lem, issue_loop_total}

-- A call on the input state of one terminal.
pub data InputCall : Type 0 where
  takes_over answers_cursor : InputCall
  resumes releases : ℕ → InputCall
  writes : ℕ → List ℕ → InputCall

module _ {W : Type 0} where
  -- With a `u64` counter the search for a free lease never runs out of fuel: an attachment is refused
  -- only for the 64 leases that are out, and otherwise it gets a lease.
  pub issue_lease_total :
      (s : TerminalInputState W)
      → s.next_lease ≤ u64_max
      → ((leb 64 (length s.issued_leases) ≡ true) × (issue_lease s ≡ (s, err validation)))
        ⊎ ((leb 64 (length s.issued_leases) ≡ false)
            × ((t : TerminalInputState W × ℕ) × (issue_lease s ≡ (t.0, ok t.1))))
  unfolding issue_lease
  issue_lease_total s r = elim (Bool-cases (leb 64 (length s.issued_leases))) [
    | inl e ↦ inl (e, ground arith)
    | inr e ↦ inr (
      e,
      let (t, found) = issue_loop_total 65 s r (ground arith) (omega arith) in (t, ground arith),
    )
  ]

  -- No lease but the last one issued is out, and only that one is active.
  abbrev pub IsControlled : TerminalInputState W → Type 0
  IsControlled s =
      ((s.issued_leases ≡ []) ⊎ (s.issued_leases ≡ s.next_lease ∷ []))
      × ((s.active_lease ≡ none) ⊎ (s.active_lease ≡ some s.next_lease))

  abbrev issued_next : TerminalInputState W → TerminalInputState W
  issued_next s = record s {
    next_lease = s.next_lease + 1;
    issued_leases = (s.next_lease + 1) ∷ [];
    active_lease = some (s.next_lease + 1);
  }

  issue_loop_next :
      (f : ℕ) (s : TerminalInputState W)
      → IsControlled s
      → s.next_lease < u64_max
      → issue_loop (suc f) s
        ≡ some (
          record s {
            next_lease = s.next_lease + 1;
            issued_leases = (s.next_lease + 1) ∷ s.issued_leases;
          },
          s.next_lease + 1,
        )
  unfolding issue_loop
  issue_loop_next f s c h = ground (arith, successor_lem s.next_lease)

  take_over_next :
      (s : TerminalInputState W)
      → IsControlled s
      → s.next_lease < u64_max
      → take_over s ≡ (issued_next s, ok (s.next_lease + 1))
  unfolding take_over issue_lease activate
  take_over_next s c h = ground (arith, issue_loop_next 64 s c h)

  resume_next :
      (p : ℕ) (s : TerminalInputState W)
      → IsControlled s
      → s.next_lease < u64_max
      → resume_lease p s ≡ (
          if p == 0 || not (s.next_lease == p)
          then (s, err state)
          else (issued_next s, ok (s.next_lease + 1)))
  unfolding resume_lease issue_lease activate
  resume_next p s c h = ground (arith, issue_loop_next 64 s c h)

  module _ (io : WriterOps W) where
    unfoldable pub call : TerminalInputState W → InputCall → TerminalInputState W
    call s takes_over = (take_over s).0
    call s answers_cursor = (write_initial_conpty_cursor_response io s).0
    call s (resumes previous) = (resume_lease previous s).0
    call s (releases lease) = release lease s
    call s (writes lease bytes) = (write io lease bytes s).0

    unfoldable pub calls_on : TerminalInputState W → List InputCall → TerminalInputState W
    calls_on s [] = s
    calls_on s (c ∷ cs) = calls_on (call s c) cs

    call-IsControlled :
        (s : TerminalInputState W) (c : InputCall)
        → s.next_lease < u64_max
        → IsControlled s
        → IsControlled (call s c)
          × (s.next_lease ≤ (call s c).next_lease)
          × ((call s c).next_lease ≤ s.next_lease + 1)
    unfolding call release write write_initial_conpty_cursor_response
    call-IsControlled s takes_over h k = ground (arith, take_over_next s k h)
    call-IsControlled s answers_cursor h k = ground arith
    call-IsControlled s (resumes p) h k = ground (arith, resume_next p s k h)
    call-IsControlled s (releases l) h k = ground arith
    call-IsControlled s (writes l bytes) h k = ground arith

    calls_on-IsControlled :
        (s : TerminalInputState W) (cs : List InputCall)
        → s.next_lease + length cs ≤ u64_max
        → IsControlled s
        → IsControlled (calls_on s cs)
          × (s.next_lease ≤ (calls_on s cs).next_lease)
          × ((calls_on s cs).next_lease ≤ s.next_lease + length cs)
    unfolding calls_on
    calls_on-IsControlled s [] h k = (k, omega arith, omega arith)
    calls_on-IsControlled s (c ∷ cs) h k =
        let (kept, low, high) = call-IsControlled s c (omega arith) k in
        let (all, lows, highs) = calls_on-IsControlled (call s c) cs (omega arith) kept in
        (all, omega arith, omega arith)

    -- A lease other than the last one issued writes nothing.
    stale_write :
        (s : TerminalInputState W) (lease : ℕ) (bytes : List ℕ)
        → IsControlled s
        → s.next_lease ≢ lease
        → (write io lease bytes s ≡ (s, err validation)) × (assert_active lease s ≡ err validation)
    unfolding write assert_active
    stale_write s lease bytes k ne = ground arith

    live_write :
        (s : TerminalInputState W) (lease : ℕ) (bytes : List ℕ)
        → s.issued_leases ≡ lease ∷ []
        → s.active_lease ≡ some lease
        → leb (length bytes) max_chunk ≡ true
        → write io lease bytes s ≡ (
          record s { writer = (write_and_flush io bytes s.writer).0 },
          (write_and_flush io bytes s.writer).1,
        )
    unfolding write
    live_write s lease bytes e a h = ground arith

    -- In a terminal's life of fewer than `u64::MAX` calls, a new attachment always gets the input, with
    -- a lease that no attachment had before; what it writes, up to 64 KiB, reaches the writer.
    pub take_over_controls :
        (w : W) (cs : List InputCall)
        → length cs < u64_max
        → (bytes : List ℕ) → leb (length bytes) max_chunk ≡ true
        → let s = calls_on (fresh_input w) cs in
          let t = (take_over s).0 in
          ((take_over s).1 ≡ ok t.next_lease)
          × (s.next_lease < t.next_lease)
          × (write io t.next_lease bytes t ≡ (
            record t { writer = (write_and_flush io bytes s.writer).0 },
            (write_and_flush io bytes s.writer).1,
          ))
    take_over_controls w cs h bytes b =
        let s = calls_on (fresh_input w) cs in
        let (k, _, high) =
          calls_on-IsControlled (fresh_input w) cs (omega arith) (inl refl, inl refl) in
        let e = take_over_next s k (omega arith) in
        (
          cc,
          ground (arith, e),
          rw e (live_write (issued_next s) (s.next_lease + 1) bytes refl refl b),
        )

    -- Once an attachment takes the input over, no lease that was issued before it writes anything or
    -- owns the terminal, whatever is called later, as long as there are fewer than `u64::MAX` calls.
    pub superseded_lease :
        (w : W) (cs later : List InputCall)
        → length cs + length later + 1 < u64_max
        → (lease : ℕ)
        → let s = calls_on (fresh_input w) cs in
          lease ≤ s.next_lease
          → (bytes : List ℕ)
          → let t = calls_on s (takes_over ∷ later) in
            (write io lease bytes t ≡ (t, err validation))
            × (assert_active lease t ≡ err validation)
    unfolding calls_on call
    superseded_lease w cs later h lease b bytes =
        let s = calls_on (fresh_input w) cs in
        let (k, _, high) =
          calls_on-IsControlled (fresh_input w) cs (omega arith) (inl refl, inl refl) in
        let e = take_over_next s k (omega arith) in
        let (kept, low, _) = call-IsControlled s takes_over (omega arith) k in
        let more : s.next_lease < (take_over s).0.next_lease = ground (arith, e) in
        let (controlled, above, _) =
          calls_on-IsControlled (take_over s).0 later (ground (arith, e)) (ground (arith, e)) in
        stale_write (calls_on (take_over s).0 later) lease bytes controlled (omega arith)

    -- A browser gets its terminal back exactly when the lease it had is the last one that was issued;
    -- it then has a new lease, and the old one writes nothing. Else the call changes nothing.
    pub resume_lease_iff :
        (w : W) (cs : List InputCall)
        → length cs < u64_max
        → (previous : ℕ) (bytes : List ℕ)
        → let s = calls_on (fresh_input w) cs in
          let t = (resume_lease previous s).0 in
          ((previous ≢ 0)
            × (previous ≡ s.next_lease)
            × ((resume_lease previous s).1 ≡ ok (previous + 1))
            × (write io previous bytes t ≡ (t, err validation)))
          ⊎ (((previous ≡ 0) ⊎ (previous ≢ s.next_lease))
              × (resume_lease previous s ≡ (s, err state)))
    resume_lease_iff w cs h previous bytes =
        let s = calls_on (fresh_input w) cs in
        let (k, _, high) =
          calls_on-IsControlled (fresh_input w) cs (omega arith) (inl refl, inl refl) in
        let e = resume_next previous s k (omega arith) in
        let stale = stale_write (issued_next s) previous bytes (inr refl, inr refl) in
        ground (arith, e, stale)
