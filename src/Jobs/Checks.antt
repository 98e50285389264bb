-- ===== src/Jobs/Checks.antt =====
-- The checks of command_job.rs on the parts of a request: texts, directories, confirmations, and the
-- risk of a preset, which only a preset that is as it was shipped may keep at L0.
use remote_deck.Base.{
  Bool, true, false, ◌&&◌, ◌||◌, not, Option, none, some, Text, codes, text_eq, any, ltb,
  if◌then◌else◌, is_empty, is_none, strip_prefix, trim, byte_len, length, contains_char, is_control,
  find, ok, err, fail_if,
}
use remote_deck.Model.{CommandPreset, CommandRisk, l0, l1, l2}
use remote_deck.Risk.Analysis.{RiskLevel, max_command_bytes, max_confirmation_chars}
use remote_deck.Risk.Presets.{BuiltinPreset, builtin_presets}
use remote_deck.Jobs.Types.{invalid_request, JobResult, max_working_directory_bytes}

unfoldable pub risk_level : CommandRisk → RiskLevel
risk_level l0 = RiskLevel.l0
risk_level l1 = RiskLevel.l1
risk_level l2 = RiskLevel.l2

unfoldable pub command_risk : RiskLevel → CommandRisk
command_risk RiskLevel.l0 = l0
command_risk RiskLevel.l1 = l1
command_risk RiskLevel.l2 = l2

abbrev pub same_risk : CommandRisk → CommandRisk → Bool
same_risk l0 l0 = true
same_risk l1 l1 = true
same_risk l2 l2 = true
same_risk _ _ = false

abbrev pub same_flag : Bool → Bool → Bool
same_flag true b = b
same_flag false b = not b

-- `risk::builtin_preset` on a text.
unfoldable pub builtin : Text → Option BuiltinPreset
unfolding text_eq
builtin id = find (λ preset. text_eq (codes preset.id) id) builtin_presets

unfoldable pub validate_command_text : Text → JobResult (Unit {0})
unfolding trim byte_len
validate_command_text command =
    fail_if
      (is_empty (trim command)
        || ltb max_command_bytes (byte_len command)
        || contains_char 0 command)
      invalid_request

unfoldable pub normalize_directory : Option Text → JobResult (Option Text)
unfolding trim byte_len
normalize_directory none = ok none
normalize_directory (some text) =
    let value = trim text in
    if is_empty value
    then ok none
    else if ltb max_working_directory_bytes (byte_len value) || contains_char 0 value
    then err invalid_request
    else ok (some value)

unfoldable pub normalize_confirmation : Option Text → JobResult (Option Text)
unfolding trim is_control
normalize_confirmation none = ok none
normalize_confirmation (some text) =
    let value = trim text in
    if is_empty value
    then ok none
    else if ltb max_confirmation_chars (length value) || any is_control value
    then err invalid_request
    else ok (some value)

-- `preset.risk.max(CommandRisk::L1)`.
abbrev pub at_least_l1 : CommandRisk → CommandRisk
at_least_l1 l0 = l1
at_least_l1 risk = risk

abbrev pub is_immutable : CommandPreset → BuiltinPreset → Bool
is_immutable preset shipped =
    is_none preset.host_id
    && text_eq preset.command (codes shipped.command)
    && same_risk preset.risk (command_risk shipped.declared_risk)
    && same_flag preset.requires_pty shipped.requires_pty
    && same_flag preset.requires_sudo shipped.requires_sudo
    && is_none preset.working_directory
    && is_none preset.confirmation_text

unfoldable pub trusted_preset_risk : CommandPreset → JobResult CommandRisk
unfolding strip_prefix builtin command_risk text_eq
trusted_preset_risk preset = elim (strip_prefix (codes "builtin:") preset.id) [
  | none ↦ ok (at_least_l1 preset.risk)
  | some id ↦ elim (builtin id) [
    | none ↦ err invalid_request
    | some shipped ↦
        if not (is_immutable preset shipped)
        then err invalid_request
        else ok (command_risk shipped.declared_risk)
  ]
]
