-- ===== src/Store/Settings.antt =====
-- `apply_settings_patch` of store.rs: each field that the patch has is checked and stored in turn.
use Prim.Native.String.{String}
use remote_deck.Base.{
  Bool, ◌||◌, not, Option, none, some, List, [], ◌∷◌, Text, codes, text_eq, to_ascii_lowercase, any,
  ltb, if◌then◌else◌, is_empty, trim, byte_len, contains_char, is_control, ok, err, ◌>>=◌,
  unwrap_or,
}
use remote_deck.Model.{validation, AppResult, AppSettings, SettingsPatch}
use remote_deck.Store.Validate.{within}

-- `if let Some(value) = field { … }`.
abbrev pub patched {ℓ} :
    {A : Type ℓ}
    → Option A
    → (A → AppSettings → AppResult AppSettings)
    → AppSettings
    → AppResult AppSettings
patched none store s = ok s
patched (some value) store s = store value s

-- Store a value that passes its check.
abbrev pub checked : Bool → AppSettings → AppResult AppSettings
checked good s = if good then ok s else err validation

abbrev pub is_known : Text → List String → Bool
is_known value choices = any (λ choice. text_eq (codes choice) value) choices

unfoldable pub store_font_family : Text → AppSettings → AppResult AppSettings
store_font_family value s =
    checked
      (not
        (is_empty (trim value) || ltb 256 (byte_len (trim value)) || any is_control (trim value)))
      (record s { terminal_font_family = trim value })

unfoldable pub store_directory : Text → AppSettings → AppResult AppSettings
store_directory value s =
    checked (not (ltb 32767 (byte_len (trim value)) || contains_char 0 (trim value)))
      (record s { download_directory = trim value })

unfoldable pub store_log_level : Text → AppSettings → AppResult AppSettings
store_log_level value s =
    let level = to_ascii_lowercase (trim value) in
    checked (is_known level ("debug" ∷ "info" ∷ "warn" ∷ "error" ∷ []))
      (record s { log_level = level })

unfoldable pub store_agent : Text → AppSettings → AppResult AppSettings
store_agent value s =
    let agent = to_ascii_lowercase (trim value) in
    checked (is_known agent ("codex" ∷ "claude" ∷ "gemini" ∷ "opencode" ∷ []))
      (record s { default_agent = agent })

-- The text fields and switches of the second half of the function.
unfoldable pub apply_rest : AppSettings → SettingsPatch → AppResult AppSettings
unfolding store_directory store_log_level store_agent
apply_rest s p = do
  s ← patched p.download_directory store_directory s
  let switched = record s {
    auto_reconnect = unwrap_or p.auto_reconnect s.auto_reconnect;
    close_to_tray = unwrap_or p.close_to_tray s.close_to_tray;
    launch_at_login = unwrap_or p.launch_at_login s.launch_at_login;
    btop_watchdog_enabled = unwrap_or p.btop_watchdog_enabled s.btop_watchdog_enabled;
  }
  s ←
      patched p.btop_rotation_minutes
        (λ v t. checked (within 1 1440 v) (record t { btop_rotation_minutes = v })) switched
  s ← patched p.log_level store_log_level s
  let onboarded = record s {
    onboarding_completed = unwrap_or p.onboarding_completed s.onboarding_completed;
  }
  patched p.default_agent store_agent onboarded

unfoldable pub apply_settings_patch : AppSettings → SettingsPatch → AppResult AppSettings
unfolding store_font_family apply_rest
apply_settings_patch s p = do
  s ← patched p.terminal_font_family store_font_family s
  s ←
      patched p.terminal_font_size
        (λ v t. checked (within 9 32 v) (record t { terminal_font_size = v })) s
  s ←
      patched p.telemetry_interval_seconds
        (λ v t. checked (within 1 60 v) (record t { telemetry_interval_seconds = v })) s
  s ←
      patched p.telemetry_retention_minutes
        (λ v t. checked (within 1 1440 v) (record t { telemetry_retention_minutes = v })) s
  apply_rest s p
