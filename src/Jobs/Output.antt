-- ===== src/Jobs/Output.antt =====
-- The output that command_job.rs keeps of a job is bounded, and ends with the marker once it is cut.
use remote_deck.Base.{
  ℕ, ◌+◌, ◌-◌, ◌≤◌, ◌≡◌, refl, inl, inr, Bool-cases, Bool, true, ◌||◌, List, [], ◌∷◌, ◌++◌, Text,
  leb, is_empty, length-append, byte_len, as_bytes, utf8_char, from_utf8_lossy, arith,
}
use remote_deck.Jobs.Types.{command_output_limit}
use remote_deck.Jobs.Work.{output_truncated_marker, char_len, truncate_utf8, append_bounded}

byte_len-cons : (c : ℕ) (s : Text) → byte_len (c ∷ s) ≡ char_len c + byte_len s
unfolding byte_len as_bytes
byte_len-cons c s = length-append (utf8_char c) (as_bytes s)

pub byte_len-nil : byte_len [] ≡ 0
unfolding byte_len as_bytes
byte_len-nil = refl

pub byte_len-append : (s t : Text) → byte_len (s ++ t) ≡ byte_len s + byte_len t
byte_len-append [] t = omega (arith, byte_len-nil)
byte_len-append (c ∷ s) t =
    omega (arith, byte_len-append s t, byte_len-cons c s, byte_len-cons c (s ++ t))

byte_len-truncate_utf8 : (n : ℕ) (s : Text) → byte_len (truncate_utf8 n s) ≤ n
unfolding truncate_utf8
byte_len-truncate_utf8 n [] = omega (arith, byte_len-nil)
byte_len-truncate_utf8 n (c ∷ s) = ground (
  arith,
  byte_len-nil,
  byte_len-cons c (truncate_utf8 (n - char_len c) s),
  byte_len-truncate_utf8 (n - char_len c) s,
)

byte_len-marker : byte_len output_truncated_marker ≡ 40
unfolding byte_len as_bytes utf8_char
byte_len-marker = refl

cut-le :
    (target value : Text)
    → let kept = truncate_utf8 (command_output_limit - 40) target in
      byte_len (
        kept
        ++ truncate_utf8 (command_output_limit - 40 - byte_len kept) value
        ++ output_truncated_marker)
      ≤ command_output_limit
cut-le target value =
    let kept = truncate_utf8 (command_output_limit - 40) target in
    let more = truncate_utf8 (command_output_limit - 40 - byte_len kept) value in
    omega (
      arith,
      byte_len-append (kept ++ more) output_truncated_marker,
      byte_len-append kept more,
      byte_len-truncate_utf8 (command_output_limit - 40) target,
      byte_len-truncate_utf8 (command_output_limit - 40 - byte_len kept) value,
      byte_len-marker,
    )

fits_in :
    (target value : Text)
    → leb (byte_len target + byte_len value) command_output_limit ≡ true
    → byte_len (target ++ value) ≤ command_output_limit
fits_in target value h = ground (arith, byte_len-append target value)

-- Output that was within 1 MiB stays within it.
pub append_bounded-le :
    (target : Text) (truncated : Bool) (bytes : List ℕ)
    → byte_len target ≤ command_output_limit
    → byte_len (append_bounded target truncated bytes).0 ≤ command_output_limit
unfolding append_bounded
append_bounded-le target truncated bytes h =
    let value = from_utf8_lossy bytes in
    elim (Bool-cases (is_empty bytes || truncated)) [
      | inl e ↦ rw (e, append_bounded) h
      | inr e ↦ elim (Bool-cases (leb (byte_len target + byte_len value) command_output_limit)) [
        | inl fits ↦ rw (e, fits, append_bounded) (fits_in target value fits)
        | inr long ↦ rw (e, long, append_bounded) (cut-le target value)
      ]
    ]
