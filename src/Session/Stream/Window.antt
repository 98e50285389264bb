-- ===== src/Session/Stream/Window.antt =====
-- The replay of `TerminalEventStream` in session.rs is a window on all that was published.
use remote_deck.Base.{
  inl, inr, ap, ℕ, ◌+◌, ◌-◌, ◌≤◌, ◌≡◌, refl, Option, none, some, List, [], ◌∷◌, ◌++◌, ltb, ◌==◌,
  if◌then◌else◌, length, Bool-cases, arith,
}
use remote_deck.Session.Types.{TerminalEvent, SequencedTerminalEvent, max_terminal_replay_bytes}
use remote_deck.Session.Stream.{replay_event_bytes, drop_oldest}

-- What a terminal publishes: generations and events.
abbrev pub History : Type 0
History = List (ℕ × TerminalEvent)

-- The events of a history with their numbers, after so many others.
unfoldable pub numbered : ℕ → History → List SequencedTerminalEvent
numbered n [] = []
numbered n ((generation, event) ∷ later) =
    record { sequence = n + 1; generation = generation; event = event } ∷ numbered (n + 1) later

unfoldable pub bytes_of : List SequencedTerminalEvent → ℕ
bytes_of [] = 0
bytes_of (e ∷ es) = replay_event_bytes e.event + bytes_of es

-- The longest end of a list of events that is not too long to keep.
unfoldable pub window : List SequencedTerminalEvent → List SequencedTerminalEvent
window [] = []
window (e ∷ es) =
    let less = window es in
    if ltb max_terminal_replay_bytes (bytes_of (e ∷ es)) then less else e ∷ es

pub bytes_of-append :
    (xs ys : List SequencedTerminalEvent) → bytes_of (xs ++ ys) ≡ bytes_of xs + bytes_of ys
unfolding bytes_of
bytes_of-append [] ys = omega arith
bytes_of-append (x ∷ xs) ys = omega (arith, bytes_of-append xs ys)

window_short :
    (xs : List SequencedTerminalEvent) → bytes_of xs ≤ max_terminal_replay_bytes → window xs ≡ xs
unfolding window bytes_of
window_short [] h = refl
window_short (x ∷ xs) h = ground arith

pub bytes_of-window-le :
    (xs : List SequencedTerminalEvent) → bytes_of (window xs) ≤ max_terminal_replay_bytes
unfolding window bytes_of
bytes_of-window-le [] = omega arith
bytes_of-window-le (x ∷ xs) = ground (arith, bytes_of-window-le xs)

-- What is dropped early would be dropped later.
pub window-append :
    (xs ys : List SequencedTerminalEvent) → window (window xs ++ ys) ≡ window (xs ++ ys)
unfolding window bytes_of
window-append [] ys = refl
window-append (x ∷ xs) ys = ground (arith, window-append xs ys, bytes_of-append xs ys)

last_sequence : Option ℕ → List SequencedTerminalEvent → Option ℕ
last_sequence d [] = d
last_sequence d (e ∷ es) = last_sequence (some e.sequence) es

-- The loop leaves the window, and the number of the last event that it drops.
pub drop_oldest_lem :
    (xs : List SequencedTerminalEvent) (bytes : ℕ) (d : Option ℕ)
    → bytes ≡ bytes_of xs
    → ((drop_oldest xs bytes d).replay ≡ window xs)
      × ((drop_oldest xs bytes d).replay_bytes ≡ bytes_of (window xs))
unfolding drop_oldest window bytes_of
drop_oldest_lem [] bytes d e = ground arith
drop_oldest_lem (x ∷ xs) bytes d e =
    ground (
      arith,
      drop_oldest_lem xs (bytes - replay_event_bytes x.event) (some x.sequence) (omega arith),
    )

-- How a count of dropped events is recorded: by the number of the last one, if there is one.
abbrev pub dropped_after : ℕ → Option ℕ
dropped_after count = if count == 0 then none else some count

pub length-numbered : (n : ℕ) (h : History) → length (numbered n h) ≡ length h
unfolding numbered
length-numbered n [] = refl
length-numbered n ((g, e) ∷ h) = omega (arith, length-numbered (n + 1) h)

pub numbered-append :
    (n : ℕ) (h k : History) → numbered n (h ++ k) ≡ numbered n h ++ numbered (n + length h) k
unfolding numbered
numbered-append n [] k = ground arith
numbered-append n ((g, e) ∷ h) k = ground (arith, numbered-append (n + 1) h k)

pub length-window-le : (xs : List SequencedTerminalEvent) → length (window xs) ≤ length xs
unfolding window
length-window-le [] = omega arith
length-window-le (x ∷ xs) = ground (arith, length-window-le xs)

pub dropped_through-drop_oldest :
    (n bytes : ℕ) (h : History) (d : Option ℕ)
    → bytes ≡ bytes_of (numbered n h)
    → (drop_oldest (numbered n h) bytes d).dropped_through ≡ (
        if length (window (numbered n h)) == length h
        then d
        else some (n + length h - length (window (numbered n h))))
unfolding drop_oldest window bytes_of numbered
dropped_through-drop_oldest n bytes [] d e = ground arith
dropped_through-drop_oldest n bytes ((g, x) ∷ h) d e = ground (
  arith,
  dropped_through-drop_oldest (n + 1) (bytes - replay_event_bytes x) h (some (n + 1)) (omega arith),
  length-window-le (numbered (n + 1) h),
  length-numbered (n + 1) h,
)

-- A window on a history is its end, and the history comes apart there.
abbrev pub Splits : ℕ → History → Type 0
Splits n h =
    (early : History) × (later : History) × (early ++ later ≡ h)
    × (window (numbered n h) ≡ numbered (n + length early) later)

pub window-Splits : (n : ℕ) (h : History) → Splits n h
unfolding window numbered
window-Splits n [] = ([], [], refl, refl)
window-Splits n ((g, e) ∷ h) =
    elim (Bool-cases (ltb max_terminal_replay_bytes (bytes_of (numbered n ((g, e) ∷ h))))) [
      | inr f ↦ ([], (g, e) ∷ h, refl, ground arith)
      | inl f ↦
          let (early, later, whole, seen) = window-Splits (n + 1) h in
          ((g, e) ∷ early, later, ap (λ t. (g, e) ∷ t) whole, ground arith)
    ]
