-- ===== src/Jobs/Quote.antt =====
-- Quoting for a POSIX shell in command_job.rs, and a reader of quoted words to check it against.
use remote_deck.Base.{
  ℕ, ◌≡◌, refl, ap, ◌∙◌, Bool, Option, none, some, [], ◌∷◌, ◌++◌, ◌==◌, if◌then◌else◌, Text, codes,
  strip_prefix, trim, arith, append-nil, text_eq, ◌||◌, is_empty,
}

-- `value.replace('\'', "'\\''")`.
unfoldable pub escape_quotes : Text → Text
escape_quotes [] = []
escape_quotes (c ∷ value) =
    let rest = escape_quotes value in if c == b'\'' then codes "'\\''" ++ rest else c ∷ rest

unfoldable pub posix_quote : Text → Text
unfolding escape_quotes
posix_quote value = codes "'" ++ escape_quotes value ++ codes "'"

unfoldable pub shell_path : Text → Text
unfolding posix_quote strip_prefix
shell_path value = elim (strip_prefix (codes "~/") value) [
  | some relative ↦ codes "\"$HOME\"/" ++ posix_quote relative
  | none ↦ posix_quote value
]

unfoldable pub in_directory : Text → Option Text → Text
unfolding shell_path trim text_eq
in_directory command none = command
in_directory command (some working_directory) =
    let directory = trim working_directory in
    if is_empty directory || text_eq directory (codes "~") || text_eq directory (codes "~/")
    then command
    else codes "cd -- " ++ shell_path directory ++ codes " && " ++ command

-- How a POSIX shell reads a word: outside of quotes, within single quotes, or after a backslash. The
-- word ends at the end of the text or at a blank; what follows is left. Other characters that mean
-- something to a shell end the reading without a word.
pub data Reading : Type 0 where
  outside within escaped : Reading

abbrev special : ℕ → Bool
special c =
    c == b'"'
    || c == b'$'
    || c == b'`'
    || c == b';'
    || c == b'&'
    || c == b'|'
    || c == b'<'
    || c == b'>'
    || c == b'('
    || c == b')'
    || c == 10

abbrev also : ℕ → Option (Text × Text) → Option (Text × Text)
also c none = none
also c (some (word, rest)) = some (c ∷ word, rest)

unfoldable pub read_word : Reading → Text → Option (Text × Text)
read_word outside [] = some ([], [])
read_word within [] = none
read_word escaped [] = none
read_word outside (c ∷ s) =
    let quoted = read_word within s in
    let after = read_word escaped s in
    let plain = also c (read_word outside s) in
    if c == b'\''
    then quoted
    else if c == b'\\'
    then after
    else if c == b' ' || c == 9
    then some ([], s)
    else if special c
    then none
    else plain
read_word within (c ∷ s) =
    let out = read_word outside s in
    let more = also c (read_word within s) in if c == b'\'' then out else more
read_word escaped (c ∷ s) = also c (read_word outside s)

-- The quoted text between its quotes.
read_word-escape_quotes :
    (value rest : Text)
    → read_word within (escape_quotes value ++ codes "'" ++ rest) ≡ elim (read_word outside rest) [
      | none ↦ none
      | some (word, left) ↦ some (value ++ word, left)
    ]
unfolding read_word escape_quotes
read_word-escape_quotes [] rest = ground arith
read_word-escape_quotes (c ∷ value) rest = ground (arith, read_word-escape_quotes value rest)

read_word-posix_quote :
    (value rest : Text)
    → read_word outside (posix_quote value ++ rest)
      ≡ read_word within (escape_quotes value ++ codes "'" ++ rest)
unfolding posix_quote read_word
read_word-posix_quote value rest = refl

-- A shell reads back a quoted text as one word, which is the text, whatever characters it has, and goes
-- on after it.
pub posix_quote_reads :
    (value rest : Text)
    → read_word outside (posix_quote value ++ (codes " " ++ rest)) ≡ some (value, rest)
unfolding read_word
posix_quote_reads value rest =
    read_word-posix_quote value (codes " " ++ rest)
    ∙ read_word-escape_quotes value (codes " " ++ rest)
    ∙ ap (λ word. some (word, rest)) (append-nil value)
