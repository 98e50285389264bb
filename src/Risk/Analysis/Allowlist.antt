-- ===== src/Risk/Analysis/Allowlist.antt =====
-- Commands that risk.rs lets run unconfirmed: what their segments can be.
use remote_deck.Base.{
  ◌≤◌, ◌≡◌, ◌≢◌, refl, ◌∙◌, Bool, true, false, ◌||◌, not, Option, List, [], ◌∷◌, arith, Text, codes,
  all, if◌then◌else◌, All, to_ascii_lowercase, ok, contains_char, contains_text, sym, subst, any,
  starts_with, text_eq, text_eq_iff, ◌⊎◌, inl, inr, Bool-cases,
}
use remote_deck.Risk.Words.{shell_words, one_of, executable_basename}
use remote_deck.Risk.Findings.{level_one_findings, level_two_findings}
use remote_deck.Risk.ReadOnly.{
  is_read_only_command, is_read_only_segment, split_shell_segments, program_words, read_only,
  allowed_program, is_harmless_use,
}
use remote_deck.Risk.Analysis.{RiskLevel, l0, l1, l2, rank, RiskAnalysis, detect, analyze_command}
use remote_deck.Risk.Analysis.Laws.{fired, risk-detect, analyze_command_ok}

abbrev IsGitQuery : List Text → Type 0
IsGitQuery [] = ⊥
IsGitQuery (subcommand ∷ _) =
    one_of subcommand ("status" ∷ "branch" ∷ "log" ∷ "diff" ∷ "show" ∷ "rev-parse" ∷ []) ≡ true

-- Only a query of git, no deletion by find, and no editing in place by sed.
abbrev pub IsQuery : Text → List Text → List Text → Type 0
IsQuery name arguments words =
    ((name ≢ codes "git") ⊎ IsGitQuery arguments)
    × ((name ≢ codes "find") ⊎ All (λ word. word ≢ codes "-delete") words)
    × ((name ≢ codes "sed") ⊎ All (λ word. starts_with (codes "-i") word ≡ false) words)

-- A segment of a command that is free of redirection and substitution, whose program is on the
-- allowlist and is used for a query. The list has `env`, and what `env` runs is not looked at.
pub record IsAllowlisted (segment : Text) : Type 0 where
  pub no_redirection : contains_char b'>' segment ≡ false
  pub no_substitution :
      (contains_text (codes "$(") segment ≡ false) × (contains_char b'`' segment ≡ false)
  pub program : Text
  pub arguments : List Text
  pub words : program_words (shell_words segment) ≡ program ∷ arguments
  pub allowed : one_of (executable_basename program) read_only ≡ true
  pub query : IsQuery (executable_basename program) arguments (shell_words segment)

None-delete :
    (words : List Text)
    → any (λ word. text_eq word (codes "-delete")) words ≡ false
    → All (λ word. word ≢ codes "-delete") words
None-delete [] h = tt
None-delete (word ∷ words) h = (
  λ e. absurd (ground (arith, (text_eq_iff word (codes "-delete")).1 e)),
  None-delete words (ground arith),
)

None-in_place :
    (words : List Text)
    → any (λ word. text_eq word (codes "-i") || starts_with (codes "-i") word) words ≡ false
    → All (λ word. starts_with (codes "-i") word ≡ false) words
None-in_place [] h = tt
None-in_place (word ∷ words) h = (ground arith, None-in_place words (ground arith))

git_use-IsGitQuery :
    (arguments words : List Text)
    → is_harmless_use (codes "git") arguments words ≡ true
    → IsGitQuery arguments
unfolding text_eq
git_use-IsGitQuery [] words h = cc
git_use-IsGitQuery (subcommand ∷ arguments) words h = h

find_use :
    (arguments words : List Text)
    → is_harmless_use (codes "find") arguments words ≡ true
    → any (λ word. text_eq word (codes "-delete")) words ≡ false
unfolding text_eq
find_use arguments words h = split_test _ h
  where
    split_test : (b : Bool) → (if b then false else true) ≡ true → b ≡ false
    split_test b h = ground arith

sed_use :
    (arguments words : List Text)
    → is_harmless_use (codes "sed") arguments words ≡ true
    → any (λ word. text_eq word (codes "-i") || starts_with (codes "-i") word) words ≡ false
unfolding text_eq
sed_use arguments words h = split_test _ h
  where
    split_test : (b : Bool) → (if b then false else true) ≡ true → b ≡ false
    split_test b h = ground arith

-- One test on a program: the name differs, or the test was passed.
named-or : {P : Type 0} (name expected : Text) → (name ≡ expected → P) → (name ≢ expected) ⊎ P
named-or name expected h = elim (Bool-cases (text_eq name expected)) [
  | inl same ↦ inr (h ((text_eq_iff name expected).0 same))
  | inr other ↦ inl (λ e. absurd (ground (arith, (text_eq_iff name expected).1 e)))
]

harmless_use-IsQuery :
    (name : Text) (arguments words : List Text)
    → is_harmless_use name arguments words ≡ true
    → IsQuery name arguments words
harmless_use-IsQuery name arguments words h =
    let at_name : (expected : Text)
        → name ≡ expected
        → is_harmless_use expected arguments words ≡ true =
      λ expected same. subst (λ n. is_harmless_use n arguments words ≡ true) same h in
    (
      named-or name (codes "git") (λ same. git_use-IsGitQuery arguments words (at_name _ same)),
      named-or name (codes "find")
          (λ same. None-delete words (find_use arguments words (at_name _ same))),
      named-or name (codes "sed")
          (λ same. None-in_place words (sed_use arguments words (at_name _ same))),
    )

allowed_cases :
    (program : Text) (arguments words : List Text)
    → allowed_program (program ∷ arguments) words ≡ true
    → (one_of (executable_basename program) read_only ≡ true)
      × (is_harmless_use (executable_basename program) arguments words ≡ true)
unfolding allowed_program
allowed_cases program arguments words h = split_test _ _ h
  where
    split_test : (b c : Bool) → (if not b then false else c) ≡ true → (b ≡ true) × (c ≡ true)
    split_test b c h = ground arith

program_cases :
    (words found : List Text)
    → program_words words ≡ found
    → allowed_program found words ≡ true
    → (program : Text) × (arguments : List Text) × (program_words words ≡ program ∷ arguments)
      × (one_of (executable_basename program) read_only ≡ true)
      × (is_harmless_use (executable_basename program) arguments words ≡ true)
unfolding allowed_program
program_cases words [] e h = absurd (cc)
program_cases words (program ∷ arguments) e h =
    let (listed, harmless) = allowed_cases program arguments words h in
    (program, arguments, e, listed, harmless)

segment-IsAllowlisted :
    (segment : Text) → is_read_only_segment segment ≡ true → IsAllowlisted segment
unfolding is_read_only_segment
segment-IsAllowlisted segment h =
    let (program, arguments, words, allowed, harmless) =
      program_cases (shell_words segment) _ refl (ground arith) in
    record {
      no_redirection = ground arith;
      no_substitution = (ground arith, ground arith);
      program = program;
      arguments = arguments;
      words = words;
      allowed = allowed;
      query =
          harmless_use-IsQuery (executable_basename program) arguments (shell_words segment)
            harmless;
    }

All-IsAllowlisted :
    (segments : List Text) → all is_read_only_segment segments ≡ true → All IsAllowlisted segments
All-IsAllowlisted [] h = tt
All-IsAllowlisted (s ∷ segments) h =
    (segment-IsAllowlisted s (ground arith), All-IsAllowlisted segments (ground arith))

read_only_command :
    (command : Text)
    → is_read_only_command command ≡ true
    → (split_shell_segments command ≢ []) × All IsAllowlisted (split_shell_segments command)
unfolding is_read_only_command
read_only_command command h =
    (λ e. absurd (ground arith), All-IsAllowlisted (split_shell_segments command) (ground arith))

rank_zero : (r : RiskLevel) → rank r ≤ 0 → r ≡ l0
rank_zero l0 h = refl
rank_zero l1 h = absurd (omega arith)
rank_zero l2 h = absurd (omega arith)

detect_l0 :
    (command : Text)
    → (detect command).risk ≡ l0
    → (is_read_only_command command ≡ true)
      × (fired (level_one_findings (to_ascii_lowercase command)) ≡ false)
      × (fired (level_two_findings (to_ascii_lowercase command)) ≡ false)
detect_l0 command e = split_tests _ _ _ (sym (risk-detect command) ∙ e)
  where
    split_tests :
        (two one safe : Bool)
        → (if two then l2 else if one || not safe then l1 else l0) ≡ l0
        → (safe ≡ true) × (one ≡ false) × (two ≡ false)
    split_tests two one safe h = ground arith

-- A command whose effective risk is L0 was declared L0 and has a segment, no finding of either level
-- matches, and each segment is free of `>`, `$(` and backticks and runs a program of the allowlist: git
-- with one of six subcommands that query, find without `-delete`, sed without a word that begins with
-- `-i`, or another listed program.
pub l0-IsAllowlisted :
    (command : Text) (declared : RiskLevel) (text : Option Text) (a : RiskAnalysis)
    → analyze_command command declared text ≡ ok a
    → a.effective_risk ≡ l0
    → (declared ≡ l0)
      × (split_shell_segments command ≢ [])
      × All IsAllowlisted (split_shell_segments command)
      × (fired (level_one_findings (to_ascii_lowercase command)) ≡ false)
      × (fired (level_two_findings (to_ascii_lowercase command)) ≡ false)
l0-IsAllowlisted command declared text a e zero_risk =
    let (_, detected, declared_floor, floor, _, _) = analyze_command_ok command declared text a e in
    let calm =
      sym detected
      ∙ rank_zero a.detected_risk (subst (λ r. rank a.detected_risk ≤ rank r) zero_risk floor) in
    let (safe, one, two) = detect_l0 command calm in
    (
      rank_zero declared (subst (λ r. rank declared ≤ rank r) zero_risk declared_floor),
      (read_only_command command safe).0,
      (read_only_command command safe).1,
      one,
      two,
    )
