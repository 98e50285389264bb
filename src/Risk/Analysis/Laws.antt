-- ===== src/Risk/Analysis/Laws.antt =====
-- What an analysis promises: the risk is a floor, and the confirmation fits it.
use Prim.Native.String.{String}
use remote_deck.Base.{
  ◌≤◌, ◌≡◌, ◌≢◌, ◌⊎◌, refl, Bool, true, false, ◌||◌, not, Option, none, some, List, [], ◌∷◌, arith,
  Text, any, if◌then◌else◌, trim, length, is_control, to_ascii_lowercase, ok, >>-ok, >>=-ok,
  ok-injective, subst,
}
use remote_deck.Risk.Findings.{level_one_findings, level_two_findings}
use remote_deck.Risk.ReadOnly.{is_read_only_command}
use remote_deck.Risk.Analysis.{
  RiskLevel, l0, l1, l2, rank, risk_max, ConfirmationRequirement, nothing, acknowledge, type_exact,
  RiskAnalysis, validate_command, validate_confirmation_text, push_reason, Detection, note,
  first_detection, detect, requirement, analyze_command, max_confirmation_chars,
}

-- Some finding matched.
abbrev pub fired : List (Bool × String) → Bool
fired findings = any (λ finding. finding.0) findings

note_two :
    (d : Detection) (findings : List (Bool × String))
    → (note (λ _. l2) d findings).risk ≡ (if fired findings then l2 else d.risk)
unfolding note
note_two d [] = refl
note_two d ((true, reason) ∷ findings) =
    ground (arith, note_two (record { risk = l2; reasons = push_reason d.reasons reason }) findings)
note_two d ((false, reason) ∷ findings) = note_two d findings

note_one :
    (d : Detection) (findings : List (Bool × String))
    → (note (λ r. risk_max r l1) d findings).risk
      ≡ (if fired findings then risk_max d.risk l1 else d.risk)
unfolding note
note_one d [] = refl
note_one d ((true, reason) ∷ findings) = ground (
  arith,
  note_one (record { risk = risk_max d.risk l1; reasons = push_reason d.reasons reason }) findings,
)
note_one d ((false, reason) ∷ findings) = note_one d findings

-- The detected risk is L2 exactly when a finding of level two matches, and otherwise L0 exactly when
-- the command is read-only and no finding matches.
pub risk-detect :
    (command : Text)
    → let lower = to_ascii_lowercase command in
      (detect command).risk ≡ (
        if fired (level_two_findings lower)
        then l2
        else if fired (level_one_findings lower) || not (is_read_only_command command)
        then l1
        else l0)
unfolding detect
risk-detect command =
    let lower = to_ascii_lowercase command in
    let one = note (λ r. risk_max r l1) (first_detection command) (level_one_findings lower) in
    ground (
      arith,
      note_two one (level_two_findings lower),
      note_one (first_detection command) (level_one_findings lower),
    )

-- The confirmation that fits a risk and a confirmation text.
abbrev pub Fits : RiskLevel → Option Text → ConfirmationRequirement → Type 0
Fits l0 text c = c ≡ nothing
Fits l1 text c = c ≡ acknowledge
Fits l2 text c =
    (t : Text) × (text ≡ some t)
    × (c ≡ type_exact (trim t))
    × (trim t ≢ [])
    × (length (trim t) ≤ max_confirmation_chars)
    × (any is_control (trim t) ≡ false)

requirement-Fits :
    (risk : RiskLevel) (text : Option Text) (c : ConfirmationRequirement)
    → requirement risk text ≡ ok c
    → Fits risk text c
unfolding requirement validate_confirmation_text
requirement-Fits l0 text c e = ground arith
requirement-Fits l1 text c e = ground arith
requirement-Fits l2 none c e = absurd (cc)
requirement-Fits l2 (some t) c e = (t, refl, ground arith, ground arith, ground arith, ground arith)

abbrev Promises : Text → RiskLevel → Option Text → RiskAnalysis → Type 0
Promises command declared text a =
    (a.declared_risk ≡ declared)
    × (a.detected_risk ≡ (detect command).risk)
    × (rank declared ≤ rank a.effective_risk)
    × (rank a.detected_risk ≤ rank a.effective_risk)
    × ((a.effective_risk ≡ declared) ⊎ (a.effective_risk ≡ a.detected_risk))
    × Fits a.effective_risk text a.confirmation

-- An answer of `analyze_command`: the effective risk is the greater of the declared and the detected
-- one, so neither is ever lowered, and the confirmation is none at L0, an acknowledgement at L1, and
-- at L2 the exact trimmed confirmation text, which is not empty, has at most 256 characters and no
-- control character.
pub analyze_command_ok :
    (command : Text) (declared : RiskLevel) (text : Option Text) (a : RiskAnalysis)
    → analyze_command command declared text ≡ ok a
    → (a.declared_risk ≡ declared)
      × (a.detected_risk ≡ (detect command).risk)
      × (rank declared ≤ rank a.effective_risk)
      × (rank a.detected_risk ≤ rank a.effective_risk)
      × ((a.effective_risk ≡ declared) ⊎ (a.effective_risk ≡ a.detected_risk))
      × Fits a.effective_risk text a.confirmation
unfolding analyze_command
analyze_command_ok command declared text a e =
    let effective = risk_max declared (detect command).risk in
    let (valid, rest) = >>-ok (validate_command command) _ a e in
    let (c, required, built) = >>=-ok (requirement effective text) _ a rest in
    subst (λ r. Promises command declared text r) (ok-injective built)
      (
        refl,
        refl,
        ground arith,
        ground arith,
        ground arith,
        requirement-Fits effective text c required,
      )
