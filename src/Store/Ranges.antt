-- ===== src/Store/Ranges.antt =====
-- The ranges that `apply_settings_patch` of store.rs keeps the settings in.
use remote_deck.Base.{
  ℕ, ◌≤◌, ◌≡◌, refl, Bool, true, false, Option, none, some, [], ◌∷◌, ok, >>=-ok, ok-injective,
  to_ascii_lowercase, trim, arith, subst,
}
use remote_deck.Model.{AppResult, AppSettings, SettingsPatch}
use remote_deck.Store.Validate.{within}
use remote_deck.Store.Settings.{
  patched, checked, is_known, apply_rest, store_font_family, store_directory, store_log_level,
  store_agent, apply_settings_patch,
}

abbrev pub IsWithin : ℕ → ℕ → ℕ → Type 0
IsWithin low high n = (low ≤ n) × (n ≤ high)

abbrev pub IsInRange : AppSettings → Type 0
IsInRange s =
    IsWithin 9 32 s.terminal_font_size
    × IsWithin 1 60 s.telemetry_interval_seconds
    × IsWithin 1 1440 s.telemetry_retention_minutes
    × IsWithin 1 1440 s.btop_rotation_minutes
    × (is_known s.log_level ("debug" ∷ "info" ∷ "warn" ∷ "error" ∷ []) ≡ true)
    × (is_known s.default_agent ("codex" ∷ "claude" ∷ "gemini" ∷ "opencode" ∷ []) ≡ true)

-- A property of settings that a step keeps.
Keeps : (AppSettings → Type 0) → (AppSettings → AppResult AppSettings) → Type 0
Keeps P f = (s t : AppSettings) → P s → f s ≡ ok t → P t

patched-Keeps {ℓ} :
    {A : Type ℓ} (P : AppSettings → Type 0) (o : Option A)
    (f : A → AppSettings → AppResult AppSettings)
    → ((a : A) → Keeps P (f a))
    → Keeps P (patched o f)
unfolding Keeps
patched-Keeps P none f h s t p e = subst P (ok-injective e) p
patched-Keeps P (some a) f h s t p e = h a s t p e

-- A checked store keeps what holds of the new settings when the check passes.
checked-Keeps :
    (P : AppSettings → Type 0) (good : Bool) (s t : AppSettings)
    → (good ≡ true → P s)
    → checked good s ≡ ok t
    → P t
checked-Keeps P true s t h e = subst P (ok-injective e) (h refl)
checked-Keeps P false s t h e = absurd cc

range : (low high n : ℕ) → within low high n ≡ true → (low ≤ n) × (n ≤ high)
range low high n h = (ground arith, ground arith)

rest-IsInRange : (p : SettingsPatch) → Keeps IsInRange (λ s. apply_rest s p)
unfolding Keeps apply_rest store_directory store_log_level store_agent
rest-IsInRange p s t r e =
    let (s1, e1, k1) = >>=-ok (patched p.download_directory store_directory s) _ t e in
    let r1 =
      patched-Keeps IsInRange p.download_directory store_directory
        (λ v s t r. checked-Keeps IsInRange _ (record s { download_directory = trim v }) t (λ _. r))
        s s1 r e1 in
    let (s2, e2, k2) = >>=-ok (patched p.btop_rotation_minutes _ _) _ t k1 in
    let r2 =
      patched-Keeps IsInRange p.btop_rotation_minutes _
        (λ v s t r.
          checked-Keeps IsInRange _ (record s { btop_rotation_minutes = v }) t
            (λ g. let (f, i, m, b, l, a) = r in (f, i, m, range 1 1440 v g, l, a)))
        _ s2 r1 e2 in
    let (s3, e3, k3) = >>=-ok (patched p.log_level store_log_level s2) _ t k2 in
    let r3 =
      patched-Keeps IsInRange p.log_level store_log_level
        (λ v s t r.
          checked-Keeps IsInRange _ (record s { log_level = to_ascii_lowercase (trim v) }) t
            (λ g. let (f, i, m, b, l, a) = r in (f, i, m, b, g, a)))
        s2 s3 r2 e3 in
    patched-Keeps IsInRange p.default_agent store_agent
      (λ v s t r.
        checked-Keeps IsInRange _ (record s { default_agent = to_ascii_lowercase (trim v) }) t
          (λ g. let (f, i, m, b, l, a) = r in (f, i, m, b, l, g)))
      _ t r3 k3

-- Settings in range stay in range under any patch that is taken: terminal font size 9 to 32,
-- telemetry interval 1 to 60 seconds, retention and btop rotation 1 to 1440 minutes, and a known
-- log level and default agent.
pub apply_settings_patch-IsInRange :
    (s t : AppSettings) (p : SettingsPatch)
    → IsInRange s
    → apply_settings_patch s p ≡ ok t
    → IsInRange t
unfolding Keeps apply_settings_patch store_font_family
apply_settings_patch-IsInRange s t p r e =
    let (s1, e1, k1) = >>=-ok (patched p.terminal_font_family store_font_family s) _ t e in
    let r1 =
      patched-Keeps IsInRange p.terminal_font_family store_font_family
        (λ v s t r.
          checked-Keeps IsInRange _ (record s { terminal_font_family = trim v }) t (λ _. r))
        s s1 r e1 in
    let (s2, e2, k2) = >>=-ok (patched p.terminal_font_size _ s1) _ t k1 in
    let r2 =
      patched-Keeps IsInRange p.terminal_font_size _
        (λ v s t r.
          checked-Keeps IsInRange _ (record s { terminal_font_size = v }) t
            (λ g. let (f, i, m, b, l, a) = r in (range 9 32 v g, i, m, b, l, a)))
        s1 s2 r1 e2 in
    let (s3, e3, k3) = >>=-ok (patched p.telemetry_interval_seconds _ s2) _ t k2 in
    let r3 =
      patched-Keeps IsInRange p.telemetry_interval_seconds _
        (λ v s t r.
          checked-Keeps IsInRange _ (record s { telemetry_interval_seconds = v }) t
            (λ g. let (f, i, m, b, l, a) = r in (f, range 1 60 v g, m, b, l, a)))
        s2 s3 r2 e3 in
    let (s4, e4, k4) = >>=-ok (patched p.telemetry_retention_minutes _ s3) _ t k3 in
    let r4 =
      patched-Keeps IsInRange p.telemetry_retention_minutes _
        (λ v s t r.
          checked-Keeps IsInRange _ (record s { telemetry_retention_minutes = v }) t
            (λ g. let (f, i, m, b, l, a) = r in (f, i, range 1 1440 v g, b, l, a)))
        s3 s4 r3 e4 in
    rest-IsInRange p s4 t r4 k4
