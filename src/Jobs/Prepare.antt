-- ===== src/Jobs/Prepare.antt =====
-- The risk check of a resolved command in command_job.rs, its confirmation, and what may then start.
use remote_deck.Base.{
  not, Option, none, some, Text, text_eq, if◌then◌else◌, is_empty, option_filter, unwrap_or, trim,
  Result, ok, err, ◌>>=◌, ◌>>◌, fail_if,
}
use remote_deck.Model.{HostProfile, CommandRisk, l0}
use remote_deck.Risk.Analysis.{
  RiskError, ConfirmationRequirement, nothing, acknowledge, type_exact, analyze_command,
}
use remote_deck.Jobs.Types.{
  CommandAnalysis, risk_analysis, confirmation_required, confirmation_mismatch, requires_pty,
  JobResult, ResolvedCommand, PreparedCommand, PtyCommandPlan,
}
use remote_deck.Jobs.Quote.{in_directory}
use remote_deck.Jobs.Checks.{risk_level, command_risk, same_risk, validate_command_text}

-- `map_err` of an error of the analysis.
abbrev from_risk : {A : Type 0} → Result RiskError A → JobResult A
from_risk (ok a) = ok a
from_risk (err e) = err risk_analysis

-- What has to be typed for an analysed command.
abbrev pub confirmation_for : HostProfile → ConfirmationRequirement → Option Text
confirmation_for host nothing = none
confirmation_for host acknowledge = some host.alias
confirmation_for host (type_exact value) = some value

-- The text that confirms L2: the preset's, or else the alias of the host.
abbrev pub l2_confirmation : ResolvedCommand → Text
l2_confirmation resolved =
    unwrap_or (option_filter (λ value. not (is_empty value)) resolved.confirmation_text)
      (trim resolved.host.alias)

unfoldable pub analyze_resolved_command : ResolvedCommand → JobResult CommandAnalysis
unfolding in_directory validate_command_text
analyze_resolved_command resolved = do
  checked ← from_risk (
      analyze_command resolved.command (risk_level resolved.declared_risk)
        (some (l2_confirmation resolved)))
  let display_command = in_directory resolved.command resolved.working_directory
  validate_command_text display_command
  ok (record {
    target_alias = resolved.host.alias;
    display_command = display_command;
    working_directory = resolved.working_directory;
    declared_risk = resolved.declared_risk;
    effective_risk = command_risk checked.effective_risk;
    reasons = checked.reasons;
    required_confirmation = confirmation_for resolved.host checked.confirmation;
  })

abbrev given : Option Text → Option Text
given none = none
given (some value) = let typed = trim value in if is_empty typed then none else some typed

abbrev compare_confirmation : CommandRisk → Text → Option Text → JobResult (Unit {0})
compare_confirmation risk expected none = err (confirmation_required risk expected)
compare_confirmation risk expected (some value) =
    fail_if (not (text_eq value expected)) (confirmation_mismatch risk expected)

unfoldable pub enforce_command_confirmation : CommandAnalysis → Option Text → JobResult (Unit {0})
unfolding text_eq
enforce_command_confirmation analysis supplied =
    if same_risk analysis.effective_risk l0 then ok tt else elim analysis.required_confirmation [
      | none ↦ err risk_analysis
      | some expected ↦ compare_confirmation analysis.effective_risk expected (given supplied)
    ]

abbrev pub pty_plan : ResolvedCommand → CommandAnalysis → PtyCommandPlan
pty_plan resolved analysis = record {
  host_id = resolved.host.id;
  command_id = resolved.command_id;
  name = resolved.name;
  command = analysis.display_command;
  working_directory = resolved.working_directory;
  risk = analysis.effective_risk;
}

unfoldable pub prepare_run : ResolvedCommand → Option Text → JobResult PreparedCommand
prepare_run resolved supplied = do
  analysis ← analyze_resolved_command resolved
  enforce_command_confirmation analysis supplied
  fail_if resolved.requires_pty (requires_pty (pty_plan resolved analysis))
  ok (record {
    host = resolved.host;
    command_id = resolved.command_id;
    name = resolved.name;
    display_command = analysis.display_command;
    risk = analysis.effective_risk;
  })
