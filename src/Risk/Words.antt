-- ===== src/Risk/Words.antt =====
-- The words of a shell command, as risk.rs reads them.
use Prim.Native.String.{String}
use remote_deck.Base.{
  ℕ, ◌+◌, Bool, true, false, ◌&&◌, ◌||◌, not, none, some, List, [], ◌∷◌, map, Text, codes, text_eq,
  to_ascii_lowercase, trim_matches, split_whitespace, split_on, split_once, last_or, is_empty,
  retain, any, ◌==◌, ltb, is_ascii_alphanumeric, is_ascii_alphabetic,
}

-- A list of literals.
abbrev pub texts : List String → List Text
texts ss = map codes ss

abbrev pub one_of : Text → List String → Bool
one_of s choices = any (λ choice. text_eq (codes choice) s) choices

is_quote : ℕ → Bool
is_quote c =
    c == b'\'' || c == b'"' || c == b'(' || c == b')' || c == b'{' || c == b'}' || c == b','

unfoldable pub shell_words : Text → List Text
unfolding is_quote
shell_words value =
    retain (λ word. not (is_empty word))
      (map (λ word. to_ascii_lowercase (trim_matches is_quote word)) (split_whitespace value))

-- `chars().enumerate().all(…)` from an index on.
assignment_chars : ℕ → Text → Bool
assignment_chars index [] = true
assignment_chars index (c ∷ s) =
    (c == b'_' || (is_ascii_alphanumeric c && (ltb 0 index || is_ascii_alphabetic c)))
    && assignment_chars (index + 1) s

unfoldable pub is_environment_assignment : Text → Bool
unfolding assignment_chars
is_environment_assignment value = elim (split_once b'=' value) [
  | none ↦ false
  | some (name, _) ↦ not (is_empty name) && assignment_chars 0 name
]

unfoldable pub executable_basename : Text → Text
executable_basename value = last_or value (split_on (λ c. c == b'/') value)

trim_dashes : Text → Text
trim_dashes word = trim_matches (λ c. c == b'-') word

unfoldable pub contains_any_word : Text → List String → Bool
unfolding trim_dashes
contains_any_word command words =
    let tokens = shell_words command in
    any
      (λ expected.
        any (λ token. text_eq token expected || text_eq (trim_dashes token) (trim_dashes expected))
          tokens)
      (texts words)
