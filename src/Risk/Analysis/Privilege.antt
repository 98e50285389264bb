-- ===== src/Risk/Analysis/Privilege.antt =====
-- Programs that always need typed confirmation.
use Prim.Native.String.{String}
use remote_deck.Base.{
  ◌≤◌, ◌≡◌, ◌≢◌, refl, ◌∙◌, true, Option, none, some, List, [], ◌∷◌, arith, Text, codes, In, All,
  All-In, as_bytes, to_ascii_lowercase, ok, trim, subst,
}
use remote_deck.Risk.Programs.{contains_command, contains_any_command, contains_command_iff, Occurs}
use remote_deck.Risk.Findings.{level_two_findings}
use remote_deck.Risk.Analysis.{
  RiskLevel, l0, l1, l2, rank, type_exact, RiskAnalysis, detect, analyze_command,
}
use remote_deck.Risk.Analysis.Laws.{fired, Fits, risk-detect, analyze_command_ok}

-- Programs whose mere name makes a command L2.
abbrev pub l2_programs : List String
l2_programs =
    "sudo" ∷ "su" ∷ "reboot" ∷ "shutdown" ∷ "poweroff" ∷ "halt" ∷ "rm" ∷ "rmdir" ∷ "unlink" ∷ "kill"
    ∷ "pkill" ∷ "killall" ∷ "mkfs" ∷ "fdisk" ∷ "parted" ∷ "wipefs" ∷ []

l2_programs-named : All (λ p. as_bytes (codes p) ≢ []) l2_programs
unfolding as_bytes
l2_programs-named = grind arith

abbrev Fires : Text → String → Type 0
Fires lower p = contains_command lower (codes p) ≡ true → fired (level_two_findings lower) ≡ true

l2_programs-Fires : (lower : Text) → All (Fires lower) l2_programs
unfolding level_two_findings contains_any_command
l2_programs-Fires lower = ground arith

is_l2 :
    (command : Text)
    → fired (level_two_findings (to_ascii_lowercase command)) ≡ true
    → (detect command).risk ≡ l2
is_l2 command e = risk-detect command ∙ rw e refl

effective_top :
    (a : RiskAnalysis)
    → a.detected_risk ≡ l2
    → rank a.detected_risk ≤ rank a.effective_risk
    → a.effective_risk ≡ l2
effective_top a detected floor =
    top a.effective_risk (subst (λ r. rank r ≤ rank a.effective_risk) detected floor)
  where
    top : (r : RiskLevel) → 2 ≤ rank r → r ≡ l2
    top l0 h = absurd (omega arith)
    top l1 h = absurd (omega arith)
    top l2 h = refl

-- A command in whose lower-case bytes one of these programs stands as a whole word is L2 whatever
-- risk was declared: it is analysed only with a confirmation text, which must be typed exactly.
pub l2_programs_need_text :
    (command : Text) (declared : RiskLevel) (text : Option Text) (a : RiskAnalysis)
    (program : String)
    → analyze_command command declared text ≡ ok a
    → In program l2_programs
    → Occurs (as_bytes (codes program)) none (as_bytes (to_ascii_lowercase command))
    → (a.effective_risk ≡ l2)
      × ((t : Text) × (text ≡ some t) × (a.confirmation ≡ type_exact (trim t)))
l2_programs_need_text command declared text a program e listed occurs =
    let lower = to_ascii_lowercase command in
    let named =
      All-In (λ p. as_bytes (codes p) ≢ []) l2_programs program l2_programs-named listed in
    let found = (contains_command_iff lower (codes program) named).1 occurs in
    let matched = All-In (Fires lower) l2_programs program (l2_programs-Fires lower) listed found in
    let (_, detected, _, floor, _, fits) = analyze_command_ok command declared text a e in
    let top = effective_top a (detected ∙ is_l2 command matched) floor in
    let (t, given, exact, _, _, _) = subst (λ r. Fits r text a.confirmation) top fits in
    (top, (t, given, exact))
