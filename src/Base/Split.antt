-- ===== src/Base/Split.antt =====
-- Trimming, splitting and searching of text, as Rust's `str` has them.
use Prim.Native.Nat.{ℕ}
use mathlib.Core.Path.{◌≡◌, refl}
use mathlib.Core.Bool.{Bool, true, false, ◌&&◌, ◌||◌, not}
use mathlib.Core.Option.{Option, none, some}
use mathlib.Core.Option
use mathlib.Core.List.{List, [], ◌∷◌, ◌++◌, reverse}
use native.Mathlib.Omega.{arith}
use remote_deck.Base.Bools.{◌==◌, if◌then◌else◌}
use remote_deck.Base.Lists.{is_empty, retain, any}
use remote_deck.Base.Strings.{Text}
use remote_deck.Base.Unicode.{is_whitespace}

unfoldable pub drop_while : (ℕ → Bool) → Text → Text
drop_while p [] = []
drop_while p (c ∷ s) = if p c then drop_while p s else c ∷ s

-- `str::trim_matches`.
unfoldable pub trim_matches : (ℕ → Bool) → Text → Text
unfolding drop_while
trim_matches p s = reverse (drop_while p (reverse (drop_while p s)))

-- `str::trim`.
unfoldable pub trim : Text → Text
unfolding trim_matches is_whitespace
trim s = trim_matches is_whitespace s

abbrev pub cons_first : ℕ → List Text → List Text
cons_first c [] = (c ∷ []) ∷ []
cons_first c (part ∷ parts) = (c ∷ part) ∷ parts

-- `str::split` at each character that passes the test.
unfoldable pub split_on : (ℕ → Bool) → Text → List Text
split_on p [] = [] ∷ []
split_on p (c ∷ s) = let rest = split_on p s in if p c then [] ∷ rest else cons_first c rest

-- `str::split_whitespace`.
unfoldable pub split_whitespace : Text → List Text
unfolding split_on is_whitespace
split_whitespace s = retain (λ part. not (is_empty part)) (split_on is_whitespace s)

-- `str::split_once` at a character.
unfoldable pub split_once : ℕ → Text → Option (Text × Text)
split_once d [] = none
split_once d (c ∷ s) =
    let rest = split_once d s in
    if c == d then some ([], s) else Option.map (λ parts. (c ∷ parts.0, parts.1)) rest

abbrev pub contains_char : ℕ → Text → Bool
contains_char d s = any (λ c. c == d) s

-- `str::starts_with` and `slice::starts_with`.
unfoldable pub starts_with : Text → Text → Bool
starts_with [] s = true
starts_with (p ∷ ps) [] = false
starts_with (p ∷ ps) (c ∷ s) = p == c && starts_with ps s

-- `str::contains` of a text.
unfoldable pub contains_text : Text → Text → Bool
unfolding starts_with
contains_text needle [] = starts_with needle []
contains_text needle (c ∷ s) = starts_with needle (c ∷ s) || contains_text needle s

-- `str::strip_prefix`.
unfoldable pub strip_prefix : Text → Text → Option Text
strip_prefix [] s = some s
strip_prefix (p ∷ ps) [] = none
strip_prefix (p ∷ ps) (c ∷ s) = if p == c then strip_prefix ps s else none

unfoldable pub last_or : Text → List Text → Text
last_or d [] = d
last_or d (part ∷ parts) = last_or part parts

pub starts_with-append : (p s : Text) → starts_with p (p ++ s) ≡ true
unfolding starts_with
starts_with-append [] s = refl
starts_with-append (c ∷ p) s = ground (arith, starts_with-append p s)

-- A text that starts with another splits after it.
pub starts_with_split : (p s : Text) → starts_with p s ≡ true → (rest : Text) × (s ≡ p ++ rest)
unfolding starts_with
starts_with_split [] s h = (s, refl)
starts_with_split (c ∷ p) [] h = absurd (cc)
starts_with_split (c ∷ p) (d ∷ s) h =
    let (rest, e) = starts_with_split p s (ground arith) in (rest, ground arith)
