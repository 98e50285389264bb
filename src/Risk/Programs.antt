-- ===== src/Risk/Programs.antt =====
-- `contains_command` of risk.rs: a program's name as a whole word of the command's bytes.
use Prim.Native.String.{String}
use remote_deck.Base.{
  ℕ, ◌≤◌, length-append, ◌≡◌, ◌≢◌, ◌↔◌, inl, inr, refl, ap, Bool, true, false, ◌&&◌, ◌||◌, not,
  Option, none, some, List, [], ◌∷◌, ◌++◌, arith, Text, strip_prefix, as_bytes, is_empty, length,
  any, ◌==◌, ltb, is_ascii_alphanumeric, is_none_or, if◌then◌else◌, starts_with, Option-cases,
  Bool-cases,
}
use remote_deck.Risk.Words.{texts, shell_words, executable_basename}

unfoldable pub is_word_byte : ℕ → Bool
is_word_byte value =
    is_ascii_alphanumeric value || (value == b'_' || value == b'-' || value == b'.')

abbrev pub first : Text → Option ℕ
first [] = none
first (c ∷ s) = some c

abbrev pub boundary_before : Option ℕ → Bool
boundary_before before = is_none_or before (λ value. not (is_word_byte value) || value == b'/')

abbrev pub boundary_after : Option ℕ → Bool
boundary_after after = is_none_or after (λ value. not (is_word_byte value))

-- The needle stands here, between boundaries.
stands_here : Text → Option ℕ → Text → Bool
stands_here needle before s = elim (strip_prefix needle s) [
  | none ↦ false
  | some rest ↦ boundary_before before && boundary_after (first rest)
]

-- The loop over the positions, with the byte before the position.
scan : Text → Option ℕ → Text → Bool
scan needle before [] = false
scan needle before (b ∷ bytes) = stands_here needle before (b ∷ bytes) || scan needle (some b) bytes

unfoldable pub contains_command : Text → Text → Bool
unfolding scan stands_here
contains_command command program =
    let bytes = as_bytes command in
    let needle = as_bytes program in
    if is_empty needle || ltb (length bytes) (length needle) then false else scan needle none bytes

unfoldable pub contains_any_command : Text → List String → Bool
contains_any_command command programs = any (contains_command command) (texts programs)

unfoldable pub contains_program_prefix : Text → Text → Bool
contains_program_prefix command prefix =
    any (λ word. starts_with prefix (executable_basename word)) (shell_words command)

-- The byte before a position: the last of what is passed, or what stood before.
abbrev pub last : Option ℕ → Text → Option ℕ
last before [] = before
last before (c ∷ s) = last (some c) s

-- The needle stands somewhere in the bytes as a whole word.
pub record Occurs (needle : Text) (before : Option ℕ) (bytes : Text) : Type 0 where
  pub front : Text
  pub back : Text
  pub split : bytes ≡ front ++ (needle ++ back)
  pub opens : boundary_before (last before front) ≡ true
  pub closes : boundary_after (first back) ≡ true

strip_prefix-append : (p s : Text) → strip_prefix p (p ++ s) ≡ some s
unfolding strip_prefix
strip_prefix-append [] s = refl
strip_prefix-append (c ∷ p) s = ground (arith, strip_prefix-append p s)

strip_prefix_split : (p s rest : Text) → strip_prefix p s ≡ some rest → s ≡ p ++ rest
unfolding strip_prefix
strip_prefix_split [] s rest e = ground arith
strip_prefix_split (c ∷ p) [] rest e = absurd (cc)
strip_prefix_split (c ∷ p) (d ∷ s) rest e = ground (arith, strip_prefix_split p s rest)

Occurs-cons :
    (needle : Text) (before : Option ℕ) (b : ℕ) (bytes : Text)
    → Occurs needle (some b) bytes
    → Occurs needle before (b ∷ bytes)
Occurs-cons needle before b bytes o = record {
  front = b ∷ o.front;
  back = o.back;
  split = ap (λ s. b ∷ s) o.split;
  opens = o.opens;
  closes = o.closes;
}

scan_sound :
    (needle : Text) (before : Option ℕ) (bytes : Text)
    → scan needle before bytes ≡ true
    → Occurs needle before bytes
unfolding scan stands_here
scan_sound needle before [] e = absurd (cc)
scan_sound needle before (b ∷ bytes) e =
    let later = λ (h : scan needle (some b) bytes ≡ true).
      Occurs-cons needle before b bytes (scan_sound needle (some b) bytes h) in
    elim (Option-cases (strip_prefix needle (b ∷ bytes))) [
      | inl missed ↦ later (ground arith)
      | inr (rest, found) ↦
          elim (Bool-cases (boundary_before before && boundary_after (first rest))) [
            | inr torn ↦ later (ground arith)
            | inl whole ↦ record {
              front = [];
              back = rest;
              split = strip_prefix_split needle (b ∷ bytes) rest found;
              opens = ground arith;
              closes = ground arith;
            }
          ]
    ]

scan_complete :
    (needle : Text) (before : Option ℕ) (front back : Text)
    → needle ≢ []
    → boundary_before (last before front) ≡ true
    → boundary_after (first back) ≡ true
    → scan needle before (front ++ (needle ++ back)) ≡ true
unfolding scan stands_here
scan_complete [] before front back h o c = absurd (h refl)
scan_complete (n ∷ ns) before [] back h o c = ground (arith, strip_prefix-append (n ∷ ns) back)
scan_complete (n ∷ ns) before (f ∷ front) back h o c =
    ground (arith, scan_complete (n ∷ ns) (some f) front back h o c)

length-split-le : (front needle back : Text) → length needle ≤ length (front ++ (needle ++ back))
length-split-le front needle back =
    omega (arith, length-append front (needle ++ back), length-append needle back)

-- A program is found exactly where its bytes stand in the command with a boundary on both sides: at
-- the start or after a byte that is no part of a word or is a slash, and at the end or before a byte
-- that is no part of a word.
pub contains_command_iff :
    (command program : Text)
    → as_bytes program ≢ []
    → (contains_command command program ≡ true) ↔ Occurs (as_bytes program) none (as_bytes command)
unfolding contains_command
contains_command_iff command program named = (
  λ e. scan_sound (as_bytes program) none (as_bytes command) (ground arith),
  λ o. elim (Bool-cases (contains_command command program)) [
    | inl found ↦ found
    | inr missed ↦ absurd (
        ground (
          arith,
          ap length o.split,
          length-split-le o.front (as_bytes program) o.back,
          scan_complete (as_bytes program) none o.front o.back named o.opens o.closes,
        ))
  ],
)
