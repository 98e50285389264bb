-- ===== src/Base/Utf8.antt =====
-- Decoding of UTF-8 as `std::str::from_utf8` and `String::from_utf8_lossy` do it.
use Prim.Native.Nat.{ℕ, zero, suc, ◌+◌, ◌*◌, ◌%◌}
use mathlib.Core.Bool.{Bool, ◌&&◌}
use mathlib.Core.List.{List, [], ◌∷◌}
use remote_deck.Base.Bools.{leb, ltb, ◌==◌, if◌then◌else◌}
use remote_deck.Base.Lists.{length}
use remote_deck.Base.Strings.{Text}

-- What bytes start with: nothing, a character, bytes that no character starts with, or a character
-- that is not complete. The rest comes after.
pub data Decoded : Type 0 where
  nothing cut_short : Decoded
  decoded : ℕ → List ℕ → Decoded
  broken : List ℕ → Decoded

abbrev continues : ℕ → Bool
continues b = leb 0x80 b && leb b 0xBF

-- The second byte of three and of four.
abbrev second_of_three : ℕ → ℕ → Bool
second_of_three b c =
    if b == 0xE0
    then leb 0xA0 c && leb c 0xBF
    else if b == 0xED
    then leb 0x80 c && leb c 0x9F
    else continues c

abbrev second_of_four : ℕ → ℕ → Bool
second_of_four b c =
    if b == 0xF0
    then leb 0x90 c && leb c 0xBF
    else if b == 0xF4
    then leb 0x80 c && leb c 0x8F
    else continues c

-- The last byte of a character, whose bits so far are given.
abbrev last_byte : ℕ → List ℕ → Decoded
last_byte bits [] = cut_short
last_byte bits (b ∷ s) = if continues b then decoded (bits * 64 + b % 64) s else broken (b ∷ s)

abbrev third_of_four : ℕ → List ℕ → Decoded
third_of_four bits [] = cut_short
third_of_four bits (b ∷ s) =
    if continues b then last_byte (bits * 64 + b % 64) s else broken (b ∷ s)

abbrev after_three : ℕ → List ℕ → Decoded
after_three first [] = cut_short
after_three first (b ∷ s) =
    if second_of_three first b then last_byte (first % 16 * 64 + b % 64) s else broken (b ∷ s)

abbrev after_four : ℕ → List ℕ → Decoded
after_four first [] = cut_short
after_four first (b ∷ s) =
    if second_of_four first b then third_of_four (first % 8 * 64 + b % 64) s else broken (b ∷ s)

unfoldable pub next_char : List ℕ → Decoded
next_char [] = nothing
next_char (b ∷ s) =
    if ltb b 0x80
    then decoded b s
    else if leb 0xC2 b && leb b 0xDF
    then last_byte (b % 32) s
    else if leb 0xE0 b && leb b 0xEF
    then after_three b s
    else if leb 0xF0 b && leb b 0xF4
    then after_four b s
    else broken s

abbrev pub replacement : ℕ
replacement = 0xFFFD

-- On fuel: each round takes a byte at least.
unfoldable pub lossy_from : ℕ → List ℕ → Text
unfolding next_char
lossy_from zero s = []
lossy_from (suc fuel) s = elim (next_char s) [
  | nothing ↦ []
  | cut_short ↦ replacement ∷ []
  | decoded c rest ↦ c ∷ lossy_from fuel rest
  | broken rest ↦ replacement ∷ lossy_from fuel rest
]

-- `String::from_utf8_lossy`.
unfoldable pub from_utf8_lossy : List ℕ → Text
unfolding lossy_from
from_utf8_lossy bytes = lossy_from (length bytes) bytes
