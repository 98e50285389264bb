-- ===== src/Store/Validate.antt =====
-- The checks of drafts in store.rs. An error is its kind; the messages are left out.
use remote_deck.Base.{
  ℕ, Bool, true, false, ◌&&◌, ◌||◌, not, Option, none, some, List, [], ◌∷◌, ◌++◌, Text, codes,
  eq_ignore_ascii_case, any, all, ltb, leb, ◌==◌, if◌then◌else◌, is_empty, is_none_or, is_some_and,
  option_filter, trim, byte_len, length, starts_with, contains_char, is_control, is_whitespace,
  is_ascii_alphanumeric, is_ascii_hexdigit, ok, ◌>>◌, fail_if,
}
use remote_deck.Model.{
  validation, AppResult, SshAdvancedOptions, AuthMethod, private_key, HostDraft, TunnelDraft,
  TunnelHealthCheck, TunnelHealthCheckKind, tcp, unchecked, CommandPresetDraft,
}

-- `(low..=high).contains(&value)`.
abbrev pub within : ℕ → ℕ → ℕ → Bool
within low high value = leb low value && leb value high

abbrev pub is_private_key : AuthMethod → Bool
is_private_key private_key = true
is_private_key _ = false

abbrev pub is_tcp : TunnelHealthCheckKind → Bool
is_tcp tcp = true
is_tcp unchecked = false

unfoldable pub validate_ssh_atom : Text → ℕ → AppResult (Unit {0})
validate_ssh_atom value max_len =
    fail_if
      (is_empty value
        || ltb max_len (byte_len value)
        || starts_with (codes "-") value
        || any is_whitespace value
        || any is_control value)
      validation

unfoldable pub validate_forward_atom : Text → AppResult (Unit {0})
validate_forward_atom value =
    fail_if
      (is_empty value
        || ltb 512 (byte_len value)
        || starts_with (codes "-") value
        || contains_char b',' value
        || any is_whitespace value
        || any is_control value)
      validation

is_alias_char : ℕ → Bool
is_alias_char c = is_ascii_alphanumeric c || contains_char c (codes "_.-")

-- `path.len() > limit || path.contains('\0')` of an optional path.
abbrev pub is_bad_path : ℕ → Option Text → Bool
is_bad_path limit path = is_some_and path (λ p. ltb limit (byte_len p) || contains_char 0 p)

validate_proxy_jump : Option Text → AppResult (Unit {0})
validate_proxy_jump none = ok tt
validate_proxy_jump (some proxy_jump) =
    let value = trim proxy_jump in if is_empty value then ok tt else validate_ssh_atom value 1024

unfoldable pub validate_host_draft : HostDraft → AppResult (Unit {0})
unfolding is_alias_char validate_proxy_jump
validate_host_draft draft = do
  fail_if
      (is_empty (trim draft.alias)
        || ltb 64 (byte_len (trim draft.alias))
        || not (all is_alias_char (trim draft.alias)))
      validation
  validate_ssh_atom (trim draft.hostname) 512
  validate_ssh_atom (trim draft.username) 128
  fail_if (draft.port == 0) validation
  fail_if (is_bad_path 32767 draft.identity_file) validation
  fail_if
      (is_some_and draft.auth_method is_private_key
        && is_none_or draft.identity_file (λ path. is_empty (trim path)))
      validation
  validate_proxy_jump draft.proxy_jump
  fail_if (is_bad_path 4096 draft.default_workspace) validation
  fail_if (ltb 32 (length draft.groups)) validation

unfoldable pub validate_advanced : SshAdvancedOptions → AppResult (Unit {0})
validate_advanced options = do
  fail_if (not (within 1 300 options.connect_timeout_seconds)) validation
  fail_if (ltb 3600 options.server_alive_interval_seconds) validation
  fail_if (not (within 1 100 options.server_alive_count_max)) validation

is_bad_health : TunnelHealthCheck → Bool
is_bad_health health =
    is_tcp health.kind
    && (not (within 2 3600 health.interval_seconds)
        || not (within 1 60 health.timeout_seconds)
        || leb health.interval_seconds health.timeout_seconds)

unfoldable pub validate_tunnel_draft : TunnelDraft → AppResult (Unit {0})
unfolding is_bad_health
validate_tunnel_draft draft = do
  fail_if
      (is_empty (trim draft.name)
        || ltb 128 (byte_len (trim draft.name))
        || any is_control (trim draft.name))
      validation
  fail_if (draft.source_port == 0 || draft.target_port == 0) validation
  validate_forward_atom (trim draft.bind_address)
  validate_forward_atom (trim draft.target_host)
  fail_if (is_some_and draft.health_check is_bad_health) validation

unfoldable pub validate_command_draft : CommandPresetDraft → AppResult (Unit {0})
validate_command_draft draft = do
  fail_if
      (is_empty (trim draft.name)
        || ltb 512 (byte_len (trim draft.name))
        || any is_control (trim draft.name))
      validation
  fail_if (ltb 2048 (byte_len draft.description) || contains_char 0 draft.description) validation
  fail_if (ltb 128 (byte_len draft.group) || any is_control draft.group) validation
  fail_if
      (is_empty (trim draft.command)
        || ltb 32768 (byte_len draft.command)
        || contains_char 0 draft.command)
      validation
  fail_if (is_bad_path 4096 draft.working_directory) validation
  fail_if
      (is_some_and draft.confirmation_text (λ text. ltb 256 (byte_len text) || any is_control text))
      validation

unfoldable pub validate_import_source_id : Text → AppResult (Unit {0})
validate_import_source_id source_id =
    fail_if (is_empty source_id || ltb 512 (byte_len source_id) || any is_control source_id)
      validation

abbrev pub is_bad_hash : Text → Bool
is_bad_hash hash = not (byte_len hash == 64) || not (all is_ascii_hexdigit hash)

unfoldable pub validate_import_hash : Text → AppResult (Unit {0})
validate_import_hash source_hash = fail_if (is_bad_hash source_hash) validation

unfoldable pub normalize_optional : Option Text → Option Text
normalize_optional none = none
normalize_optional (some item) = option_filter (λ value. not (is_empty value)) (some (trim item))

-- The loop of `normalize_groups`.
groups_from : List Text → List Text → List Text
groups_from normalized [] = normalized
groups_from normalized (group ∷ groups) =
    let value = trim group in
    groups_from
      (if is_empty value || ltb 128 (byte_len value) || any is_control value
        then normalized
        else if any (λ existing. eq_ignore_ascii_case existing value) normalized
        then normalized
        else normalized ++ value ∷ [])
      groups

unfoldable pub normalize_groups : List Text → List Text
unfolding groups_from
normalize_groups groups = groups_from [] groups
