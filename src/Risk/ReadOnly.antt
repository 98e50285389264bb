-- ===== src/Risk/ReadOnly.antt =====
-- The read-only allowlist of risk.rs.
use Prim.Native.String.{String}
use remote_deck.Base.{
  Bool, true, false, ◌&&◌, ◌||◌, not, List, [], ◌∷◌, map, Text, codes, text_eq, any, all, ◌==◌,
  starts_with, contains_text, contains_char, if◌then◌else◌, is_empty, retain, trim, split_on,
}
use remote_deck.Risk.Words.{shell_words, one_of, is_environment_assignment, executable_basename}

unfoldable pub split_shell_segments : Text → List Text
split_shell_segments command =
    retain (λ segment. not (is_empty segment))
      (map trim (split_on (λ c. c == 10 || c == b';' || c == b'|' || c == b'&') command))

abbrev pub read_only : List String
read_only =
    "awk" ∷ "btop" ∷ "cat" ∷ "cut" ∷ "date" ∷ "df" ∷ "du" ∷ "echo" ∷ "env" ∷ "find" ∷ "free" ∷ "git"
    ∷ "grep" ∷ "head" ∷ "hostname" ∷ "id" ∷ "ip" ∷ "journalctl" ∷ "ls" ∷ "lscpu" ∷ "lsblk"
    ∷ "nvidia-smi" ∷ "printf" ∷ "ps" ∷ "pwd" ∷ "sed" ∷ "squeue" ∷ "ss" ∷ "stat" ∷ "tail" ∷ "top"
    ∷ "uname" ∷ "uptime" ∷ "vmstat" ∷ "wc" ∷ "who" ∷ "whoami" ∷ []

-- The words from the first one that fails the test: the loops that advance `index`.
skip_while : (Text → Bool) → List Text → List Text
skip_while p [] = []
skip_while p (word ∷ words) = if p word then skip_while p words else word ∷ words

abbrev is_prefix_word : Text → Bool
is_prefix_word word = one_of word ("command" ∷ "exec" ∷ "if" ∷ "then" ∷ [])

-- The words from the program on.
unfoldable pub program_words : List Text → List Text
unfolding skip_while
program_words words = skip_while is_prefix_word (skip_while is_environment_assignment words)

abbrev pub is_git_query : List Text → Bool
is_git_query [] = false
is_git_query (subcommand ∷ _) =
    one_of subcommand ("status" ∷ "branch" ∷ "log" ∷ "diff" ∷ "show" ∷ "rev-parse" ∷ [])

-- The tests on an allowed program, with the words after it and all words of the segment.
abbrev pub is_harmless_use : Text → List Text → List Text → Bool
is_harmless_use program arguments words =
    if text_eq program (codes "git")
    then is_git_query arguments
    else if text_eq program (codes "find") && any (λ word. text_eq word (codes "-delete")) words
    then false
    else if text_eq program (codes "sed")
        && any (λ word. text_eq word (codes "-i") || starts_with (codes "-i") word) words
    then false
    else true

unfoldable pub allowed_program : List Text → List Text → Bool
allowed_program [] words = false
allowed_program (word ∷ arguments) words =
    let program = executable_basename word in
    if not (one_of program read_only) then false else is_harmless_use program arguments words

unfoldable pub is_read_only_segment : Text → Bool
unfolding allowed_program
is_read_only_segment segment =
    if contains_char b'>' segment
      || contains_text (codes "$(") segment
      || contains_char b'`' segment
    then false
    else let words = shell_words segment in
      if is_empty words then false else allowed_program (program_words words) words

unfoldable pub is_read_only_command : Text → Bool
is_read_only_command command =
    let segments = split_shell_segments command in
    not (is_empty segments) && all is_read_only_segment segments
