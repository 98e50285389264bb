-- ===== src/Risk/Analysis/Reasons.antt =====
-- The reasons of an analysis: every finding that matched is given, and none twice.
use Prim.Native.String.{String}
use text.Mathlib.Text.{◌==◌ as str_eq}
use text.Mathlib.TextEquality.{eq_iff}
use remote_deck.Base.{
  ◌≡◌, ◌↔◌, ◌⊎◌, inl, inr, refl, ◌++◌, Bool, true, false, Option, List, [], ◌∷◌, arith, Text, any,
  if◌then◌else◌, In, All, to_ascii_lowercase, ok, Bool-cases, ltb, >>-ok, >>=-ok, ok-injective,
  subst, sym, ap,
}
use remote_deck.Risk.Findings.{level_one_findings, level_two_findings}
use remote_deck.Risk.ReadOnly.{is_read_only_command}
use remote_deck.Risk.Analysis.{
  RiskLevel, l1, l2, rank, risk_max, RiskAnalysis, validate_command, push_reason, Detection, note,
  first_detection, detect, declares, requirement, analyze_command,
}

-- Every value occurs once.
abbrev pub Distinct : List String → Type 0
Distinct [] = Unit
Distinct (r ∷ rs) = (In r rs → ⊥) × Distinct rs

In-append : (a : String) (xs ys : List String) → In a xs ⊎ In a ys → In a (xs ++ ys)
In-append a [] ys (inl m) = absurd m
In-append a [] ys (inr m) = m
In-append a (x ∷ xs) ys (inl (inl e)) = inl e
In-append a (x ∷ xs) ys (inl (inr m)) = inr (In-append a xs ys (inl m))
In-append a (x ∷ xs) ys (inr m) = inr (In-append a xs ys (inr m))

In-split : (a : String) (xs ys : List String) → In a (xs ++ ys) → In a xs ⊎ In a ys
In-split a [] ys m = inr m
In-split a (x ∷ xs) ys (inl e) = inl (inl e)
In-split a (x ∷ xs) ys (inr m) = elim (In-split a xs ys m) [ inl k ↦ inl (inr k) | inr k ↦ inr k ]

any-eq_iff :
    (reason : String) (rs : List String) → (any (λ c. str_eq c reason) rs ≡ true) ↔ In reason rs
any-eq_iff reason [] = (λ e. absurd (cc), λ m. absurd m)
any-eq_iff reason (r ∷ rs) = ground (arith, any-eq_iff reason rs, eq_iff r reason)

Distinct-concat :
    (rs : List String) (reason : String)
    → (In reason rs → ⊥)
    → Distinct rs
    → Distinct (rs ++ reason ∷ [])
Distinct-concat [] reason new d = (λ m. m, tt)
Distinct-concat (r ∷ rs) reason new d = (
  λ m. elim (In-split r rs (reason ∷ []) m) [
    | inl old ↦ d.0 old
    | inr (inl same) ↦ new (inl (sym same))
    | inr (inr no_more) ↦ no_more
  ],
  Distinct-concat rs reason (λ m. new (inr m)) d.1,
)

-- What pushing a reason keeps and adds.
push_reason_lem :
    (rs : List String) (reason : String)
    → Distinct rs
    → Distinct (push_reason rs reason)
      × In reason (push_reason rs reason)
      × ((r : String) → In r rs → In r (push_reason rs reason))
unfolding push_reason
push_reason_lem rs reason d = elim (Bool-cases (any (λ c. str_eq c reason) rs)) [
  | inl old ↦ rw old (d, (any-eq_iff reason rs).0 old, λ r m. m)
  | inr new ↦ rw new (
    Distinct-concat rs reason (λ m. absurd (ground (arith, (any-eq_iff reason rs).1 m))) d,
    In-append reason rs (reason ∷ []) (inr (inl refl)),
    λ r m. In-append r rs (reason ∷ []) (inl m),
  )
]

-- A loop over findings keeps the reasons distinct, loses none and gives each that matches.
note_reasons :
    (raise : RiskLevel → RiskLevel) (d : Detection) (findings : List (Bool × String))
    → Distinct d.reasons
    → Distinct (note raise d findings).reasons
      × ((r : String)
          → In r d.reasons ⊎ In (true, r) findings
          → In r (note raise d findings).reasons)
unfolding note
note_reasons raise d [] distinct =
    (distinct, λ r m. elim m [ inl old ↦ old | inr nowhere ↦ absurd nowhere ])
note_reasons raise d ((true, reason) ∷ findings) distinct =
    let (pushed, there, kept) = push_reason_lem d.reasons reason distinct in
    let (all_distinct, given) =
      note_reasons raise (record { risk = raise d.risk; reasons = push_reason d.reasons reason })
        findings pushed in
    (
      all_distinct,
      λ r m. elim m [
        | inl old ↦ given r (inl (kept r old))
        | inr (inl same) ↦
            given r
              (inl (subst (λ q. In q (push_reason d.reasons reason)) (ap (λ f. f.1) same) there))
        | inr (inr later) ↦ given r (inr later)
      ],
    )
note_reasons raise d ((false, reason) ∷ findings) distinct =
    let (all_distinct, given) = note_reasons raise d findings distinct in
    (
      all_distinct,
      λ r m. elim m [
        | inl old ↦ given r (inl old)
        | inr (inl same) ↦ absurd (cc (ap (λ f. f.0) same))
        | inr (inr later) ↦ given r (inr later)
      ],
    )

first_detection-Distinct : (command : Text) → Distinct (first_detection command).reasons
unfolding push_reason
first_detection-Distinct command = elim (Bool-cases (is_read_only_command command)) [
  | inl safe ↦ rw safe tt
  | inr other ↦ rw other ((λ m. m), tt)
]

detect_reasons :
    (command : Text)
    → Distinct (detect command).reasons
      × ((r : String)
          → In (true, r) (level_one_findings (to_ascii_lowercase command))
            ⊎ In (true, r) (level_two_findings (to_ascii_lowercase command))
          → In r (detect command).reasons)
unfolding detect
detect_reasons command =
    let lower = to_ascii_lowercase command in
    let (one, from_one) =
      note_reasons (λ r. risk_max r l1) (first_detection command) (level_one_findings lower)
        (first_detection-Distinct command) in
    let (two, from_two) = note_reasons (λ _. l2) _ (level_two_findings lower) one in
    (
      two,
      λ r m. elim m [
        | inl first ↦ from_two r (inl (from_one r (inr first)))
        | inr second ↦ from_two r (inr second)
      ],
    )

declared_reasons :
    (raised : Bool) (rs : List String) (declaration : String)
    → Distinct rs
    → Distinct (if raised then push_reason rs declaration else rs)
      × ((r : String) → In r rs → In r (if raised then push_reason rs declaration else rs))
declared_reasons true rs declaration d =
    let (distinct, _, kept) = push_reason_lem rs declaration d in (distinct, kept)
declared_reasons false rs declaration d = (d, λ r m. m)

-- A finding that does not match, or whose reason is given.
abbrev pub IsReported : List String → Bool × String → Type 0
IsReported rs finding = (finding.0 ≡ false) ⊎ In finding.1 rs

All-IsReported :
    (rs : List String) (findings : List (Bool × String))
    → ((r : String) → In (true, r) findings → In r rs)
    → All (IsReported rs) findings
All-IsReported rs [] given = tt
All-IsReported rs ((true, r) ∷ findings) given =
    (inr (given r (inl refl)), All-IsReported rs findings (λ q m. given q (inr m)))
All-IsReported rs ((false, r) ∷ findings) given =
    (inl refl, All-IsReported rs findings (λ q m. given q (inr m)))

-- The reasons of an analysis: none is given twice, and every finding of either level that matches is
-- among them.
pub reasons-analyze_command :
    (command : Text) (declared : RiskLevel) (text : Option Text) (a : RiskAnalysis)
    → analyze_command command declared text ≡ ok a
    → Distinct a.reasons
      × All (IsReported a.reasons) (level_one_findings (to_ascii_lowercase command))
      × All (IsReported a.reasons) (level_two_findings (to_ascii_lowercase command))
unfolding analyze_command
reasons-analyze_command command declared text a e =
    let (valid, rest) = >>-ok (validate_command command) _ a e in
    let (c, required, built) =
      >>=-ok (requirement (risk_max declared (detect command).risk) text) _ a rest in
    let lower = to_ascii_lowercase command in
    let (distinct, given) = detect_reasons command in
    let (all_distinct, kept) =
      declared_reasons (ltb (rank (detect command).risk) (rank declared)) (detect command).reasons
        (declares declared) distinct in
    subst
      (λ r.
        Distinct r.reasons
        × All (IsReported r.reasons) (level_one_findings lower)
        × All (IsReported r.reasons) (level_two_findings lower))
      (ok-injective built)
      (
        all_distinct,
        All-IsReported _ (level_one_findings lower) (λ r m. kept r (given r (inl m))),
        All-IsReported _ (level_two_findings lower) (λ r m. kept r (given r (inr m))),
      )
