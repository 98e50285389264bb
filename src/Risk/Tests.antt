-- ===== src/Risk/Tests.antt =====
-- Commands of risk.rs's tests, and the theorems at concrete commands.
use remote_deck.Base.{
  ◌≤◌, ◌≡◌, ◌≢◌, ◌↔◌, ◌⊎◌, inl, inr, refl, true, false, none, some, [], ◌∷◌, Text, codes, All,
  as_bytes, to_ascii_lowercase, to_ascii_lower, ok, err, trim, split_on, split_once,
  split_whitespace, trim_matches, last_or, strip_prefix, byte_len, is_control,
  is_ascii_alphanumeric,
}
use remote_deck.Risk.Words.{is_environment_assignment, executable_basename}
use remote_deck.Risk.Programs.{contains_command, contains_command_iff, Occurs, is_word_byte}
use remote_deck.Risk.Findings.{findings, level_one_findings, level_two_findings}
use remote_deck.Risk.ReadOnly.{
  is_read_only_command, is_read_only_segment, split_shell_segments, program_words,
}
use remote_deck.Risk.Analysis.{
  l0, l2, rank, nothing, type_exact, RiskAnalysis, missing_l2_confirmation_text, validate_command,
  validate_confirmation_text, push_reason, note, detect, requirement, analyze_command,
}
use remote_deck.Risk.Analysis.Laws.{Fits, fired, analyze_command_ok}
use remote_deck.Risk.Analysis.Reasons.{Distinct, IsReported, reasons-analyze_command}
use remote_deck.Risk.Analysis.Privilege.{l2_programs_need_text}
use remote_deck.Risk.Analysis.Allowlist.{IsAllowlisted, l0-IsAllowlisted}
use remote_deck.Risk.Presets.{builtin_presets}

risk : Unit {0}
unfolding analyze_command validate_command validate_confirmation_text requirement detect note
    push_reason findings is_read_only_command is_read_only_segment split_shell_segments
    program_words is_environment_assignment executable_basename trim split_on split_once
    split_whitespace trim_matches last_or strip_prefix byte_len is_control to_ascii_lower
    is_word_byte is_ascii_alphanumeric
risk = tt

rebooted : analyze_command (codes "reboot") l0 none ≡ err missing_l2_confirmation_text
unfolding risk
rebooted = refl

overview :
    analyze_command (codes "uname -a; hostname; whoami; uptime; lscpu | head -n 20") l0 none
    ≡ ok (record {
      declared_risk = l0;
      detected_risk = l0;
      effective_risk = l0;
      reasons = [];
      confirmation = nothing;
    })
unfolding risk
overview = refl

-- A program that is on no list, run by one that is on the allowlist.
unknown_under_env :
    analyze_command (codes "env my-team-tool inspect") l0 none
    ≡ ok (record {
      declared_risk = l0;
      detected_risk = l0;
      effective_risk = l0;
      reasons = [];
      confirmation = nothing;
    })
unfolding risk
unknown_under_env = refl

abbrev remove_notes : Text
remove_notes = codes "cd /tmp && rm notes.txt"

abbrev removal : RiskAnalysis
removal = record {
  declared_risk = l0;
  detected_risk = l2;
  effective_risk = l2;
  reasons =
      "Command is not wholly covered by the read-only allowlist" ∷ "Deletes filesystem entries"
      ∷ [];
  confirmation = type_exact (codes "lab");
}

removal_analysed : analyze_command remove_notes l0 (some (codes " lab ")) ≡ ok removal
unfolding risk
removal_analysed = refl

analyze_command_ok_example :
    (removal.declared_risk ≡ l0)
    × (removal.detected_risk ≡ (detect remove_notes).risk)
    × (rank l0 ≤ rank removal.effective_risk)
    × (rank removal.detected_risk ≤ rank removal.effective_risk)
    × ((removal.effective_risk ≡ l0) ⊎ (removal.effective_risk ≡ removal.detected_risk))
    × Fits removal.effective_risk (some (codes " lab ")) removal.confirmation
analyze_command_ok_example =
    analyze_command_ok remove_notes l0 (some (codes " lab ")) removal removal_analysed

reasons-analyze_command_example :
    Distinct removal.reasons
    × All (IsReported removal.reasons) (level_one_findings (to_ascii_lowercase remove_notes))
    × All (IsReported removal.reasons) (level_two_findings (to_ascii_lowercase remove_notes))
reasons-analyze_command_example =
    reasons-analyze_command remove_notes l0 (some (codes " lab ")) removal removal_analysed

rm-Occurs : Occurs (as_bytes (codes "rm")) none (as_bytes (to_ascii_lowercase remove_notes))
unfolding risk
rm-Occurs = record {
  front = codes "cd /tmp && ";
  back = codes " notes.txt";
  split = refl;
  opens = refl;
  closes = refl;
}

contains_command_iff_example :
    (contains_command (to_ascii_lowercase remove_notes) (codes "rm") ≡ true)
    ↔ Occurs (as_bytes (codes "rm")) none (as_bytes (to_ascii_lowercase remove_notes))
unfolding as_bytes
contains_command_iff_example =
    contains_command_iff (to_ascii_lowercase remove_notes) (codes "rm") (λ e. cc)

l2_programs_need_text_example :
    (removal.effective_risk ≡ l2)
    × ((t : Text) × (some (codes " lab ") ≡ some t) × (removal.confirmation ≡ type_exact (trim t)))
l2_programs_need_text_example =
    l2_programs_need_text remove_notes l0 (some (codes " lab ")) removal "rm" removal_analysed
      (inr (inr (inr (inr (inr (inr (inl refl))))))) rm-Occurs

abbrev printed : RiskAnalysis
printed = record {
  declared_risk = l0;
  detected_risk = l0;
  effective_risk = l0;
  reasons = [];
  confirmation = nothing;
}

pwd_analysed : analyze_command (codes "FOO=1 exec pwd | cat") l0 none ≡ ok printed
unfolding risk
pwd_analysed = refl

l0-IsAllowlisted_example :
    (l0 ≡ l0)
    × (split_shell_segments (codes "FOO=1 exec pwd | cat") ≢ [])
    × All IsAllowlisted (split_shell_segments (codes "FOO=1 exec pwd | cat"))
    × (fired (level_one_findings (to_ascii_lowercase (codes "FOO=1 exec pwd | cat"))) ≡ false)
    × (fired (level_two_findings (to_ascii_lowercase (codes "FOO=1 exec pwd | cat"))) ≡ false)
l0-IsAllowlisted_example =
    l0-IsAllowlisted (codes "FOO=1 exec pwd | cat") l0 none printed pwd_analysed refl

-- The shipped presets need no more confirmation than they declare.
preset_risks : All (λ p. (detect (codes p.command)).risk ≡ p.declared_risk) builtin_presets
unfolding risk
preset_risks = (refl, (refl, (refl, (refl, (refl, (refl, (refl, (refl, (refl, (refl, tt))))))))))
