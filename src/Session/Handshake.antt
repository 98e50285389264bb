-- ===== src/Session/Handshake.antt =====
-- `InitialConPtyCursorHandshake` of session.rs: a query `ESC [ 6 n` at the very start of what a terminal
-- prints is taken out and answered, however it is cut into reads.
use remote_deck.Base.{
  Bool-cases, ℕ, zero, suc, ◌+◌, ◌≤◌, ◌<◌, ◌≡◌, refl, Bool, true, false, not, Option, none, some,
  List, [], ◌∷◌, ◌++◌, take, drop, ltb, ◌==◌, if◌then◌else◌, strip_prefix, append_assoc, append-nil,
  arith, ◌⊎◌, inl, inr,
}

abbrev pub cursor_query : List ℕ
cursor_query = 27 ∷ b'[' ∷ b'6' ∷ b'n' ∷ []

pub record InitialConPtyCursorHandshake : Type 0 where
  pub awaiting_query : Bool
  pub matched : ℕ

pub record InitialConPtyRead : Type 0 where
  pub answer_cursor_query : Bool
  pub output : List ℕ

-- `InitialConPtyCursorHandshake::new`.
abbrev pub new_handshake : Bool → InitialConPtyCursorHandshake
new_handshake enabled = record { awaiting_query = enabled; matched = 0 }

-- The byte of the query at a place; the code never looks behind its end.
abbrev query_byte : ℕ → ℕ
query_byte m = if m == 0 then 27 else if m == 1 then b'[' else if m == 2 then b'6' else b'n'

-- How the loop of `consume` ends: at a byte that differs, with the output, or else with the bytes of
-- the query that are matched and the rest of the read.
pub data Scan : Type 0 where
  differs : List ℕ → Scan
  scanned : ℕ → List ℕ → Scan

unfoldable pub scan : ℕ → List ℕ → Scan
scan matched [] = scanned matched []
scan matched (byte ∷ bytes) =
    let rest = scan (matched + 1) bytes in
    if not (ltb matched 4)
    then scanned matched (byte ∷ bytes)
    else if byte == query_byte matched
    then rest
    else differs (take matched cursor_query ++ byte ∷ bytes)

abbrev pub after_scan : Scan → InitialConPtyCursorHandshake × InitialConPtyRead
after_scan (differs output) =
    (new_handshake false, record { answer_cursor_query = false; output = output })
after_scan (scanned matched rest) =
    if ltb matched 4
    then (
      record { awaiting_query = true; matched = matched },
      record { answer_cursor_query = false; output = [] },
    )
    else (new_handshake false, record { answer_cursor_query = true; output = rest })

unfoldable pub consume :
    List ℕ → InitialConPtyCursorHandshake → InitialConPtyCursorHandshake × InitialConPtyRead
consume bytes h =
    if not h.awaiting_query
    then (h, record { answer_cursor_query = false; output = bytes })
    else after_scan (scan h.matched bytes)

unfoldable pub finish : InitialConPtyCursorHandshake → InitialConPtyCursorHandshake × List ℕ
finish h =
    if not h.awaiting_query then (h, []) else (new_handshake false, take h.matched cursor_query)

-- What the reader thread makes of the reads of a terminal: its whole output, with what `finish` adds,
-- and how many answers it writes.
unfoldable pub read_all : InitialConPtyCursorHandshake → List (List ℕ) → List ℕ × ℕ
read_all h [] = ((finish h).1, 0)
read_all h (bytes ∷ reads) =
    let (next, now) = consume bytes h in
    let (output, answers) = read_all next reads in
    (now.output ++ output, (if now.answer_cursor_query then 1 else 0) + answers)

abbrev pub concat : List (List ℕ) → List ℕ
concat [] = []
concat (bytes ∷ reads) = bytes ++ concat reads

-- The output and the number of answers, by what is left after the query.
abbrev pub answered : List ℕ → Option (List ℕ) → List ℕ × ℕ
answered bytes none = (bytes, 0)
answered bytes (some rest) = (rest, 1)

-- What the bytes after a matched part of the query should become.
abbrev answer_to : ℕ → List ℕ → List ℕ × ℕ
answer_to m bytes =
    answered (take m cursor_query ++ bytes) (strip_prefix (drop m cursor_query) bytes)

query_step :
    (m : ℕ)
    → m < 4
    → (drop m cursor_query ≡ query_byte m ∷ drop (m + 1) cursor_query)
      × (take (m + 1) cursor_query ≡ take m cursor_query ++ query_byte m ∷ [])
query_step zero h = (refl, refl)
query_step (suc zero) h = (refl, refl)
query_step (suc (suc zero)) h = (refl, refl)
query_step (suc (suc (suc zero))) h = (refl, refl)
query_step (suc (suc (suc (suc m)))) h = absurd (omega arith)

-- What a scan says of all the bytes that come, those of later reads included.
abbrev ScanMeans : ℕ → List ℕ → List ℕ → Scan → Type 0
ScanMeans m bytes more (differs output) =
    (output ≡ take m cursor_query ++ bytes)
    × (strip_prefix (drop m cursor_query) (bytes ++ more) ≡ none)
ScanMeans m bytes more (scanned k rest) =
    (k ≤ 4)
    × (((k ≡ 4) × (strip_prefix (drop m cursor_query) (bytes ++ more) ≡ some (rest ++ more)))
        ⊎ ((k < 4)
            × (take k cursor_query ≡ take m cursor_query ++ bytes)
            × (strip_prefix (drop m cursor_query) (bytes ++ more)
                ≡ strip_prefix (drop k cursor_query) more)))

ScanMeans-step :
    (m byte : ℕ) (bytes more : List ℕ) (s : Scan)
    → m < 4
    → byte ≡ query_byte m
    → ScanMeans (m + 1) bytes more s
    → ScanMeans m (byte ∷ bytes) more s
unfolding strip_prefix
ScanMeans-step m byte bytes more (differs output) h e k =
    let (here, longer) = query_step m h in
    ground (arith, here, longer, append_assoc (take m cursor_query) (byte ∷ []) bytes)
ScanMeans-step m byte bytes more (scanned n rest) h e k =
    let (here, longer) = query_step m h in
    ground (arith, here, longer, append_assoc (take m cursor_query) (byte ∷ []) bytes)

full : (m : ℕ) → m ≡ 4 → drop m cursor_query ≡ []
full m h = rw h refl

scan-ScanMeans : (m : ℕ) (bytes more : List ℕ) → m ≤ 4 → ScanMeans m bytes more (scan m bytes)
unfolding scan strip_prefix
scan-ScanMeans m [] more h = ground (arith, append-nil (take m cursor_query), full m)
scan-ScanMeans m (byte ∷ bytes) more h = elim (Bool-cases (ltb m 4)) [
  | inr e ↦ rw e (ground (arith, full m))
  | inl e ↦ elim (Bool-cases (byte == query_byte m)) [
    | inl same ↦
        rw (e, same)
          (ScanMeans-step m byte bytes more (scan (m + 1) bytes) (ground arith) (ground arith)
            (scan-ScanMeans (m + 1) bytes more (ground arith)))
    | inr other ↦ rw (e, other) (ground (arith, query_step m))
  ]
]

read_all_idle : (reads : List (List ℕ)) → read_all (new_handshake false) reads ≡ (concat reads, 0)
unfolding read_all consume finish
read_all_idle [] = refl
read_all_idle (bytes ∷ reads) = rw (read_all_idle reads) refl

no_more : (p : List ℕ × ℕ) → ◌≡◌ {A = List ℕ × ℕ} (p.0, 0 + p.1) p
no_more p = ground arith

ltb-true : (k : ℕ) → k < 4 → ltb k 4 ≡ true
ltb-true k h = ground arith

read_all_after :
    (m : ℕ) (bytes : List ℕ) (reads : List (List ℕ)) (s : Scan)
    → m < 4
    → ScanMeans m bytes (concat reads) s
    → ((k : ℕ)
        → k < 4
        → read_all (record { awaiting_query = true; matched = k }) reads
          ≡ answer_to k (concat reads))
    → let (next, now) = after_scan s in
      let (output, answers) = read_all next reads in
      (now.output ++ output, (if now.answer_cursor_query then 1 else 0) + answers)
      ≡ answer_to m (bytes ++ concat reads)
read_all_after m bytes reads (differs output) h (same, off) later =
    rw (read_all_idle reads, same, off, append_assoc (take m cursor_query) bytes (concat reads))
      refl
read_all_after m bytes reads (scanned k rest) h (low, inl (e, found)) later =
    rw (e, read_all_idle reads, found) refl
read_all_after m bytes reads (scanned k rest) h (low, inr (short, same, left)) later =
    rw
      (
        ltb-true k short,
        later k short,
        left,
        same,
        append_assoc (take m cursor_query) bytes (concat reads),
      )
      (no_more _)

read_all_awaiting :
    (reads : List (List ℕ)) (m : ℕ)
    → m < 4
    → read_all (record { awaiting_query = true; matched = m }) reads ≡ answer_to m (concat reads)
unfolding read_all consume finish strip_prefix
read_all_awaiting [] m h = ground (arith, query_step m h, append-nil (take m cursor_query))
read_all_awaiting (bytes ∷ reads) m h =
    read_all_after m bytes reads (scan m bytes) h
      (scan-ScanMeans m bytes (concat reads) (omega arith)) (read_all_awaiting reads)

-- However the output of a terminal is cut into reads, what the reader passes on, with what it adds at
-- the end, is the whole output, and it writes no answer; but when the handshake is enabled and the
-- output starts with the query, the query is left out, once, and is answered exactly once.
pub read_all_answers :
    (enabled : Bool) (reads : List (List ℕ))
    → read_all (new_handshake enabled) reads ≡ (
        if enabled
        then answered (concat reads) (strip_prefix cursor_query (concat reads))
        else (concat reads, 0))
read_all_answers true reads = read_all_awaiting reads 0 (omega arith)
read_all_answers false reads = read_all_idle reads
