-- ===== src/Risk/Analysis.antt =====
-- `analyze_command` of risk.rs, its types and the shipped presets.
pub mod Laws
pub mod Reasons
pub mod Privilege
pub mod Allowlist
use Prim.Native.String.{String}
use text.Mathlib.Text.{◌==◌ as str_eq}
use remote_deck.Base.{
  ℕ, ◌*◌, ◌++◌, Bool, true, false, ◌&&◌, ◌||◌, not, Option, none, some, List, [], ◌∷◌, Text, codes,
  text_eq, any, ltb, leb, if◌then◌else◌, is_empty, trim, byte_len, as_bytes, contains_char,
  is_control, length, to_ascii_lowercase, option_filter, Result, ok, err, ◌>>=◌, ◌>>◌, fail_if,
  ok_or,
}
use remote_deck.Risk.Findings.{level_one_findings, level_two_findings}
use remote_deck.Risk.ReadOnly.{is_read_only_command}

abbrev pub max_command_bytes : ℕ
max_command_bytes = 32 * 1024

abbrev pub max_confirmation_chars : ℕ
max_confirmation_chars = 256

pub data RiskLevel : Type 0 where
  l0 l1 l2 : RiskLevel

-- The derived order.
abbrev pub rank : RiskLevel → ℕ
rank l0 = 0
rank l1 = 1
rank l2 = 2

-- `Ord::max`.
abbrev pub risk_max : RiskLevel → RiskLevel → RiskLevel
risk_max a b = if ltb (rank b) (rank a) then a else b

pub data ConfirmationRequirement : Type 0 where
  nothing acknowledge : ConfirmationRequirement
  type_exact : Text → ConfirmationRequirement

pub record RiskAnalysis : Type 0 where
  pub declared_risk : RiskLevel
  pub detected_risk : RiskLevel
  pub effective_risk : RiskLevel
  pub reasons : List String
  pub confirmation : ConfirmationRequirement

pub data RiskError : Type 0 where
  invalid_command invalid_confirmation_text missing_l2_confirmation_text : RiskError

unfoldable pub validate_command : Text → Result RiskError (Unit {0})
validate_command command =
    fail_if
      (is_empty (trim command)
        || ltb max_command_bytes (byte_len command)
        || contains_char 0 (as_bytes command))
      invalid_command

unfoldable pub validate_confirmation_text : Text → Result RiskError (Unit {0})
validate_confirmation_text value =
    fail_if (ltb max_confirmation_chars (length value) || any is_control value)
      invalid_confirmation_text

unfoldable pub push_reason : List String → String → List String
push_reason reasons reason =
    if any (λ current. str_eq current reason) reasons then reasons else reasons ++ reason ∷ []

-- The detected risk with the reasons so far.
pub record Detection : Type 0 where
  pub risk : RiskLevel
  pub reasons : List String

-- A loop over findings: a match changes the risk by `raise` and gives its reason.
unfoldable pub note : (RiskLevel → RiskLevel) → Detection → List (Bool × String) → Detection
note raise d [] = d
note raise d ((matched, reason) ∷ findings) =
    let next : Detection =
      if matched
      then record { risk = raise d.risk; reasons = push_reason d.reasons reason }
      else d in
    note raise next findings

abbrev pub first_detection : Text → Detection
first_detection command =
    if is_read_only_command command then record { risk = l0; reasons = [] } else record {
      risk = l1;
      reasons = push_reason [] "Command is not wholly covered by the read-only allowlist";
    }

unfoldable pub detect : Text → Detection
detect command =
    let lower = to_ascii_lowercase command in
    note (λ _. l2) (note (λ d. risk_max d l1) (first_detection command) (level_one_findings lower))
      (level_two_findings lower)

abbrev pub declares : RiskLevel → String
declares l0 = "Preset declares risk L0"
declares l1 = "Preset declares risk L1"
declares l2 = "Preset declares risk L2"

-- What the user must confirm, by the effective risk.
unfoldable pub requirement : RiskLevel → Option Text → Result RiskError ConfirmationRequirement
requirement l0 text = ok nothing
requirement l1 text = ok acknowledge
requirement l2 none = err missing_l2_confirmation_text
requirement l2 (some text) = do
  value ←
      ok_or (option_filter (λ value. not (is_empty value)) (some (trim text)))
        missing_l2_confirmation_text
  validate_confirmation_text value
  ok (type_exact value)

unfoldable pub analyze_command : Text → RiskLevel → Option Text → Result RiskError RiskAnalysis
analyze_command command declared confirmation_text = do
  validate_command command
  let detected = detect command
  let effective = risk_max declared detected.risk
  confirmation ← requirement effective confirmation_text
  ok (record {
    declared_risk = declared;
    detected_risk = detected.risk;
    effective_risk = effective;
    reasons =
        if ltb (rank detected.risk) (rank declared)
        then push_reason detected.reasons (declares declared)
        else detected.reasons;
    confirmation = confirmation;
  })
