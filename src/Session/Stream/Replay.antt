-- ===== src/Session/Stream/Replay.antt =====
-- What a browser gets that attaches to a terminal of session.rs, against all that was published.
use remote_deck.Base.{
  ap, ℕ, ◌+◌, ◌-◌, ◌≤◌, ◌<◌, ◌≡◌, ◌∙◌, refl, min, max, Option, none, some, [], ◌∷◌, ◌++◌, retain,
  ltb, ◌==◌, if◌then◌else◌, unwrap_or, Text, length, length-append, retain-append, append_assoc,
  append-nil, arith, All,
}
use remote_deck.Session.Types.{TerminalEvent, u64_max, max_terminal_replay_bytes}
use remote_deck.Session.Input.{successor}
use remote_deck.Session.Input.Counter.{successor_lem}
use remote_deck.Session.Stream.{
  Broadcast, TerminalEventStream, new_stream, replay_event_bytes, publish, attach, truncated_event,
}
use remote_deck.Session.Stream.Window.{
  History, numbered, bytes_of, window, dropped_after, bytes_of-append, window-append,
  bytes_of-window-le, drop_oldest_lem, length-numbered, numbered-append, length-window-le,
  dropped_through-drop_oldest, window-Splits,
}

-- No event is so long that the count of bytes would overflow; a text in memory is never.
abbrev pub Fits : ℕ × TerminalEvent → Type 0
Fits e = max_terminal_replay_bytes + replay_event_bytes e.1 ≤ u64_max

-- How many events of a history are no longer kept.
abbrev pub dropped : History → ℕ
dropped h = length h - length (window (numbered 0 h))

retain-numbered_early :
    (t n : ℕ) (h : History)
    → n + length h ≤ t
    → retain (λ event. ltb t event.sequence) (numbered n h) ≡ []
unfolding numbered
retain-numbered_early t n [] b = refl
retain-numbered_early t n ((g, e) ∷ h) b = ground (arith, retain-numbered_early t (n + 1) h)

retain-numbered_late :
    (a m n : ℕ) (h : History)
    → m ≤ n
    → retain (λ event. ltb (max a m) event.sequence) (numbered n h)
      ≡ retain (λ event. ltb a event.sequence) (numbered n h)
unfolding numbered
retain-numbered_late a m n [] b = refl
retain-numbered_late a m n ((g, e) ∷ h) b = ground (arith, retain-numbered_late a m (n + 1) h)

-- The events after a number that are kept, from the window and from the whole history.
retain-window :
    (after : ℕ) (h : History)
    → retain (λ event. ltb after event.sequence) (window (numbered 0 h))
      ≡ retain (λ event. ltb (max after (dropped h)) event.sequence) (numbered 0 h)
retain-window after h =
    let (early, later, whole, seen) = window-Splits 0 h in
    let lost : dropped h ≡ length early =
      ground (arith, length-numbered (length early) later, length-append early later) in
    let apart : numbered 0 h ≡ numbered 0 early ++ numbered (length early) later =
      ground (arith, numbered-append 0 early later) in
    rw (lost, seen, apart) ground
      (
        arith,
        retain-append (λ event. ltb (max after (length early)) event.sequence) (numbered 0 early)
            (numbered (length early) later),
        retain-numbered_early (max after (length early)) 0 early,
        retain-numbered_late after (length early) (length early) later,
      )

module _ (h early later : History) (e : ℕ × TerminalEvent) (whole : early ++ later ≡ h)
    (seen : window (numbered 0 h) ≡ numbered (0 + length early) later) where
  end_length : length h ≡ length early + length later
  end_length = ground (arith, length-append early later)

  end_next :
      numbered (length early) (later ++ e ∷ [])
      ≡ window (numbered 0 h) ++ numbered (0 + length h) (e ∷ [])
  end_next = ground (arith, numbered-append (length early) later (e ∷ []), end_length)

  end_bytes :
      bytes_of (numbered (length early) (later ++ e ∷ []))
      ≡ bytes_of (window (numbered 0 h)) + replay_event_bytes e.1
  unfolding bytes_of numbered
  end_bytes =
      ground (
        arith,
        end_next,
        bytes_of-append (window (numbered 0 h)) (numbered (0 + length h) (e ∷ [])),
      )

  end_window :
      window (numbered (length early) (later ++ e ∷ [])) ≡ window (numbered 0 (h ++ e ∷ []))
  end_window = simp (
    end_next,
    window-append (numbered 0 h) (numbered (0 + length h) (e ∷ [])),
    numbered-append 0 h (e ∷ []),
  )

  end_dropped :
      let xs = numbered (length early) (later ++ e ∷ []) in
      (if length (window xs) == length (later ++ e ∷ [])
        then dropped_after (dropped h)
        else some (length early + length (later ++ e ∷ []) - length (window xs)))
      ≡ dropped_after (dropped (h ++ e ∷ []))
  end_dropped =
      let xs = numbered (length early) (later ++ e ∷ []) in
      let kept : length (window (numbered 0 h)) ≡ length later =
        ground (arith, length-numbered (length early) later) in
      let short : length (window xs) ≤ length later + 1 = ground (
        arith,
        length-window-le xs,
        length-numbered (length early) (later ++ e ∷ []),
        length-append later (e ∷ []),
      ) in
      rw (← end_window) ground
        (arith, kept, short, end_length, length-append later (e ∷ []), length-append h (e ∷ []))

module _ {Sender Receiver : Type 0} (channel : Broadcast Sender Receiver) where
  unfoldable pub publish_all : TerminalEventStream Sender → History → TerminalEventStream Sender
  publish_all s [] = s
  publish_all s ((generation, event) ∷ later) =
      publish_all (publish channel generation event s).0 later

  -- The state of a stream, of what was published.
  abbrev pub IsWindow : TerminalEventStream Sender → History → Type 0
  IsWindow s h =
      (s.replay ≡ window (numbered 0 h))
      × (s.replay_bytes ≡ bytes_of (window (numbered 0 h)))
      × (s.next_sequence ≡ length h)
      × (s.dropped_through ≡ dropped_after (dropped h))

  -- The list that `publish` trims, as the numbered end of a history.
  next_replay :
      (s : TerminalEventStream Sender) (h early later : History) (e : ℕ × TerminalEvent)
      → length h < u64_max
      → IsWindow s h
      → early ++ later ≡ h
      → window (numbered 0 h) ≡ numbered (0 + length early) later
      → s.replay
          ++ record { sequence = successor s.next_sequence; generation = e.0; event = e.1 } ∷ []
        ≡ numbered (length early) (later ++ e ∷ [])
  unfolding numbered
  next_replay s h early later e room (r, b, n, d) whole seen =
      ground (arith, end_next h early later e whole seen, successor_lem (length h))

  publish-IsWindow :
      (s : TerminalEventStream Sender) (h : History) (e : ℕ × TerminalEvent)
      → Fits e
      → length h < u64_max
      → IsWindow s h
      → IsWindow (publish channel e.0 e.1 s).0 (h ++ e ∷ [])
  unfolding publish
  publish-IsWindow s h e fits room (r, b, n, d) =
      let (early, later, whole, seen) = window-Splits 0 h in
      let xs = numbered (length early) (later ++ e ∷ []) in
      let trimmed = next_replay s h early later e room (r, b, n, d) whole seen in
      let bytes : min (s.replay_bytes + replay_event_bytes e.1) u64_max ≡ bytes_of xs =
        ground (arith, end_bytes h early later e whole seen, bytes_of-window-le (numbered 0 h)) in
      let same = end_window h early later e whole seen in
      let kept = drop_oldest_lem xs (bytes_of xs) s.dropped_through refl in
      let dropped_now =
        dropped_through-drop_oldest (length early) (bytes_of xs) (later ++ e ∷ []) s.dropped_through
          refl in
      rw (trimmed, bytes)
        (
          kept.0 ∙ same,
          kept.1 ∙ ap bytes_of same,
          ground (arith, successor_lem (length h), length-append h (e ∷ [])),
          dropped_now ∙ rw d (end_dropped h early later e whole seen),
        )

  publish_all-IsWindow :
      (s : TerminalEventStream Sender) (h more : History)
      → All Fits more
      → length h + length more ≤ u64_max
      → IsWindow s h
      → IsWindow (publish_all s more) (h ++ more)
  unfolding publish_all
  publish_all-IsWindow s h [] fits room k = rw (append-nil h) k
  publish_all-IsWindow s h (e ∷ more) fits room k =
      let next = publish-IsWindow s h e fits.0 (omega arith) k in
      rw (← append_assoc h (e ∷ []) more) (
        publish_all-IsWindow (publish channel e.0 e.1 s).0 (h ++ e ∷ []) more fits.1
          (omega (arith, length-append h (e ∷ []))) next)

  new_stream-IsWindow : (sender : Sender) → IsWindow (new_stream sender) []
  unfolding window numbered bytes_of
  new_stream-IsWindow sender = (refl, refl, refl, refl)

  -- Whatever a terminal publishes, fewer than 2^64 events that fit in memory, its stream is a window on
  -- it: the events are numbered from one on, the replay is the longest end of them with at most 1 MiB
  -- of data, its bytes are counted right, and the number of the last event that is lost is kept.
  pub publish_all_refines :
      (sender : Sender) (h : History)
      → All Fits h
      → length h ≤ u64_max
      → IsWindow (publish_all (new_stream sender) h) h
        × ((publish_all (new_stream sender) h).replay_bytes ≤ max_terminal_replay_bytes)
  publish_all_refines sender h fits room =
      let k =
        publish_all-IsWindow (new_stream sender) [] h fits (omega arith)
          (new_stream-IsWindow sender) in
      (k, omega (arith, k.1, bytes_of-window-le (numbered 0 h)))

  -- A browser that attaches with the number of the last event it has seen, or without one, gets from
  -- the stream all of the terminal's events after that number, in order, as far as they are still
  -- kept. It gets first a notice that names the last lost event exactly when one after that number is
  -- lost.
  pub attach_replays :
      (sender : Sender) (h : History)
      → All Fits h
      → length h ≤ u64_max
      → (session_id : Text) (generation : ℕ) (since : Option ℕ)
      → let after = unwrap_or since 0 in
        (attach channel session_id generation since (publish_all (new_stream sender) h)).1
        ≡ (if ltb after (dropped h)
            then truncated_event channel session_id generation (dropped h) ∷ []
            else [])
          ++ retain (λ event. ltb (max after (dropped h)) event.sequence) (numbered 0 h)
  unfolding attach
  attach_replays sender h fits room session_id generation none =
      let (r, b, n, d) = (publish_all_refines sender h fits room).0 in
      rw (r, d) (ground (arith, retain-window 0 h))
  attach_replays sender h fits room session_id generation (some after) =
      let (r, b, n, d) = (publish_all_refines sender h fits room).0 in
      rw (r, d) (ground (arith, retain-window after h))
