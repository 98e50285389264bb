-- ===== src/Jobs/Confirmed.antt =====
-- A command of command_job.rs that starts was confirmed as its risk demands.
use remote_deck.Base.{
  ◌≤◌, ◌≡◌, refl, inl, inr, ◌⊎◌, false, Option, none, some, Text, text_eq, text_eq_iff, trim, ok,
  arith, Option-cases, Result-cases, Bool-cases,
}
use remote_deck.Model.{l0}
use remote_deck.Risk.Analysis.{
  RiskLevel, RiskAnalysis, ConfirmationRequirement, rank, analyze_command,
}
use remote_deck.Risk.Analysis.Laws.{Fits, analyze_command_ok}
use remote_deck.Jobs.Types.{CommandAnalysis, ResolvedCommand, PreparedCommand}
use remote_deck.Jobs.Quote.{in_directory}
use remote_deck.Jobs.Checks.{risk_level, command_risk}
use remote_deck.Jobs.Prepare.{
  confirmation_for, l2_confirmation, analyze_resolved_command, enforce_command_confirmation,
  prepare_run,
}

-- What was typed fits the risk: nothing for L0, the alias of the host for L1, and for L2 the text of
-- the preset, or the alias when it has none.
abbrev pub IsConfirmed : ResolvedCommand → RiskLevel → Option Text → Type 0
IsConfirmed resolved RiskLevel.l0 supplied = Unit
IsConfirmed resolved RiskLevel.l1 supplied =
    (typed : Text) × (supplied ≡ some typed) × (trim typed ≡ resolved.host.alias)
IsConfirmed resolved RiskLevel.l2 supplied =
    (typed : Text) × (supplied ≡ some typed) × (trim typed ≡ trim (l2_confirmation resolved))

-- The analysis that a command was prepared by.
abbrev Analysed : ResolvedCommand → RiskAnalysis → CommandAnalysis → Type 0
Analysed resolved a analysis =
    (analyze_command resolved.command (risk_level resolved.declared_risk)
        (some (l2_confirmation resolved))
      ≡ ok a)
    × (analysis.effective_risk ≡ command_risk a.effective_risk)
    × (analysis.required_confirmation ≡ confirmation_for resolved.host a.confirmation)
    × (analysis.display_command ≡ in_directory resolved.command resolved.working_directory)

analyze_resolved_command_ok :
    (resolved : ResolvedCommand) (analysis : CommandAnalysis)
    → analyze_resolved_command resolved ≡ ok analysis
    → (a : RiskAnalysis) × Analysed resolved a analysis
unfolding analyze_resolved_command
analyze_resolved_command_ok resolved analysis e =
    let run =
      analyze_command resolved.command (risk_level resolved.declared_risk)
        (some (l2_confirmation resolved)) in
    elim (Result-cases run) [
      | inr (f, q) ↦ absurd (ground (arith, q))
      | inl (a, q) ↦ (a, (q, ground (arith, q), ground (arith, q), ground (arith, q)))
    ]

enforce_command_confirmation_ok :
    (analysis : CommandAnalysis) (supplied : Option Text)
    → enforce_command_confirmation analysis supplied ≡ ok tt
    → (analysis.effective_risk ≡ l0)
      ⊎ ((expected typed : Text) × (analysis.required_confirmation ≡ some expected)
          × (supplied ≡ some typed)
          × (trim typed ≡ expected))
unfolding enforce_command_confirmation
enforce_command_confirmation_ok analysis none e = ground arith
enforce_command_confirmation_ok analysis (some typed) e =
    elim (Option-cases analysis.required_confirmation) [
      | inl q ↦ inl (ground (arith, q))
      | inr (expected, q) ↦ elim (Bool-cases (text_eq (trim typed) expected)) [
        | inl same ↦ inr (expected, typed, q, refl, (text_eq_iff (trim typed) expected).0 same)
        | inr other ↦ inl (ground (arith, q, other))
      ]
    ]

IsConfirmed-at :
    (resolved : ResolvedCommand) (risk : RiskLevel) (c : ConfirmationRequirement)
    (analysis : CommandAnalysis) (supplied : Option Text)
    → analysis.effective_risk ≡ command_risk risk
    → analysis.required_confirmation ≡ confirmation_for resolved.host c
    → Fits risk (some (l2_confirmation resolved)) c
    → enforce_command_confirmation analysis supplied ≡ ok tt
    → IsConfirmed resolved risk supplied
unfolding command_risk
IsConfirmed-at resolved RiskLevel.l0 c analysis supplied risk required fits e = tt
IsConfirmed-at resolved RiskLevel.l1 c analysis supplied risk required fits e =
    ground (arith, enforce_command_confirmation_ok analysis supplied e)
IsConfirmed-at resolved RiskLevel.l2 c analysis supplied risk required fits e =
    ground (arith, enforce_command_confirmation_ok analysis supplied e)

Analysed-IsConfirmed :
    (resolved : ResolvedCommand) (a : RiskAnalysis) (analysis : CommandAnalysis)
    (supplied : Option Text)
    → Analysed resolved a analysis
    → enforce_command_confirmation analysis supplied ≡ ok tt
    → IsConfirmed resolved a.effective_risk supplied
Analysed-IsConfirmed resolved a analysis supplied (checked, risk, required, shown) e =
    let (_, _, _, _, _, fits) =
      analyze_command_ok resolved.command (risk_level resolved.declared_risk)
        (some (l2_confirmation resolved)) a checked in
    IsConfirmed-at resolved a.effective_risk a.confirmation analysis supplied risk required fits e

-- A prepared command: the risk analysis of risk.rs passed with the declared risk as a floor, its risk
-- is the effective one, what was typed confirms that risk, no terminal is needed, and what is shown is
-- the command in its directory.
pub prepare_run_ok :
    (resolved : ResolvedCommand) (supplied : Option Text) (prepared : PreparedCommand)
    → prepare_run resolved supplied ≡ ok prepared
    → (a : RiskAnalysis) × (analyze_command resolved.command
          (risk_level resolved.declared_risk)
          (some (l2_confirmation resolved))
        ≡ ok a)
      × (prepared.risk ≡ command_risk a.effective_risk)
      × (rank (risk_level resolved.declared_risk) ≤ rank a.effective_risk)
      × IsConfirmed resolved a.effective_risk supplied
      × (resolved.requires_pty ≡ false)
      × (prepared.display_command ≡ in_directory resolved.command resolved.working_directory)
unfolding prepare_run
prepare_run_ok resolved supplied prepared e =
    elim (Result-cases (analyze_resolved_command resolved)) [
      | inr (f, q) ↦ absurd (ground (arith, q))
      | inl (analysis, q) ↦ elim (Result-cases (enforce_command_confirmation analysis supplied)) [
        | inr (f, c) ↦ absurd (ground (arith, q, c))
        | inl (_, c) ↦
            let (a, (checked, risk, required, shown)) =
              analyze_resolved_command_ok resolved analysis q in
            let (_, _, floor, _, _, _) =
              analyze_command_ok resolved.command (risk_level resolved.declared_risk)
                (some (l2_confirmation resolved)) a checked in
            (
              a,
              checked,
              ground (arith, q, c, risk),
              floor,
              Analysed-IsConfirmed resolved a analysis supplied (checked, risk, required, shown) c,
              ground (arith, q, c),
              ground (arith, q, c, shown),
            )
      ]
    ]
