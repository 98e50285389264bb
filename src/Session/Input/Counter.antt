-- ===== src/Session/Input/Counter.antt =====
-- The counter of input leases in session.rs: the loop that looks for a free one ends.
use remote_deck.Base.{
  ℕ, zero, suc, ◌+◌, ◌≤◌, ◌<◌, ◌≡◌, ◌≢◌, ◌⊎◌, inl, inr, true, not, none, some, List, [], ◌∷◌,
  retain, length, ◌==◌, if◌then◌else◌, Bool-cases, Option-cases, arith,
}
use remote_deck.Session.Types.{u64_max}
use remote_deck.Session.Input.{TerminalInputState, holds, successor, issue_loop}

pub successor_lem : (n : ℕ) → n ≤ u64_max → successor n ≡ (if n == u64_max then 1 else n + 1)
unfolding successor
successor_lem n h = ground arith

pub successor_range : (n : ℕ) → n ≤ u64_max → (1 ≤ successor n) × (successor n ≤ u64_max)
successor_range n h = ground (arith, successor_lem n h)

-- A number is so many steps after another, going round from the greatest to one.
abbrev IsAfter : ℕ → ℕ → ℕ → Type 0
IsAfter k c n = (n ≡ c + k) ⊎ (n + u64_max ≡ c + k)

-- The next numbers after `n` are not `c`.
abbrev Avoids : ℕ → ℕ → ℕ → Type 0
Avoids zero n c = Unit
Avoids (suc f) n c = (successor n ≢ c) × Avoids f (successor n) c

IsAfter-successor :
    (k c n : ℕ)
    → 1 ≤ c
    → c ≤ u64_max
    → 1 ≤ n
    → n ≤ u64_max
    → IsAfter k c n
    → suc k < u64_max
    → IsAfter (suc k) c (successor n) × (successor n ≢ c)
IsAfter-successor k c n a b d e i h =
    (ground (arith, successor_lem n e), ground (arith, successor_lem n e))

IsAfter-Avoids :
    (f k c n : ℕ)
    → 1 ≤ c
    → c ≤ u64_max
    → 1 ≤ n
    → n ≤ u64_max
    → IsAfter k c n
    → k + f < u64_max
    → Avoids f n c
IsAfter-Avoids zero k c n a b d e i h = tt
IsAfter-Avoids (suc f) k c n a b d e i h =
    let (j, ne) = IsAfter-successor k c n a b d e i (omega arith) in
    let (low, high) = successor_range n e in
    (ne, IsAfter-Avoids f (suc k) c (successor n) a b low high j (omega arith))

-- All of the next numbers are held.
abbrev AreHeld : ℕ → ℕ → List ℕ → Type 0
AreHeld zero n leases = Unit
AreHeld (suc f) n leases = (holds (successor n) leases ≡ true) × AreHeld f (successor n) leases

abbrev without : ℕ → List ℕ → List ℕ
without c leases = retain (λ l. not (l == c)) leases

pub holds-without :
    (d c : ℕ) (leases : List ℕ) → d ≢ c → holds d leases ≡ true → holds d (without c leases) ≡ true
holds-without d c [] ne h = h
holds-without d c (l ∷ leases) ne h = ground (arith, holds-without d c leases)

length-without : (c : ℕ) (leases : List ℕ) → length (without c leases) ≤ length leases
length-without c [] = omega arith
length-without c (l ∷ leases) = ground (arith, length-without c leases)

length-without-lt :
    (c : ℕ) (leases : List ℕ) → holds c leases ≡ true → length (without c leases) < length leases
length-without-lt c [] h = absurd cc
length-without-lt c (l ∷ leases) h =
    ground (arith, length-without-lt c leases, length-without c leases)

AreHeld-without :
    (f n c : ℕ) (leases : List ℕ)
    → Avoids f n c
    → AreHeld f n leases
    → AreHeld f n (without c leases)
AreHeld-without zero n c leases a h = tt
AreHeld-without (suc f) n c leases a h =
    (holds-without (successor n) c leases a.0 h.0, AreHeld-without f (successor n) c leases a.1 h.1)

-- The pigeonhole: as many numbers are held as there are in the list, at most.
AreHeld-le-length :
    (f n : ℕ) (leases : List ℕ) → n ≤ u64_max → f < u64_max → AreHeld f n leases → f ≤ length leases
AreHeld-le-length zero n leases r b h = omega arith
AreHeld-le-length (suc f) n leases r b h =
    let (low, high) = successor_range n r in
    let apart =
      IsAfter-Avoids f 0 (successor n) (successor n) low high low high (inl (omega arith))
        (omega arith) in
    let rest = AreHeld-without f (successor n) (successor n) leases apart h.1 in
    let fits =
      AreHeld-le-length f (successor n) (without (successor n) leases) high (omega arith) rest in
    let shorter = length-without-lt (successor n) leases h.0 in omega arith

module _ {W : Type 0} where
  issue_loop-AreHeld :
      (f : ℕ) (s : TerminalInputState W)
      → issue_loop f s ≡ none
      → AreHeld f s.next_lease s.issued_leases
  unfolding issue_loop
  issue_loop-AreHeld zero s h = tt
  issue_loop-AreHeld (suc f) s h =
      elim (Bool-cases (holds (successor s.next_lease) s.issued_leases)) [
        | inl e ↦ (
          e,
          issue_loop-AreHeld f (record s { next_lease = successor s.next_lease }) (ground arith),
        )
        | inr e ↦ absurd (ground arith)
      ]

  -- The search for a free lease ends: with fewer leases out than fuel, it finds one.
  pub issue_loop_total :
      (f : ℕ) (s : TerminalInputState W)
      → s.next_lease ≤ u64_max
      → length s.issued_leases < f
      → f < u64_max
      → (t : TerminalInputState W × ℕ) × (issue_loop f s ≡ some t)
  issue_loop_total f s r l b = elim (Option-cases (issue_loop f s)) [
    | inr found ↦ found
    | inl e ↦ absurd (
        let fits =
          AreHeld-le-length f s.next_lease s.issued_leases r b (issue_loop-AreHeld f s e) in
        omega arith)
  ]
