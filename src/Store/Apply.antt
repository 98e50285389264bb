-- ===== src/Store/Apply.antt =====
-- How store.rs applies a draft to the state. `now` and `new_id` are the clock and a fresh UUID.
use remote_deck.Base.{
  ℕ, Bool, true, false, ◌&&◌, not, Option, none, some, List, [], ◌∷◌, Text, codes, text_eq,
  eq_ignore_ascii_case, any, find, if◌then◌else◌, is_some, is_none, is_some_and, unwrap_or, trim,
  map, ok, ◌>>=◌, ◌>>◌, fail_if, ok_or,
}
use remote_deck.Model.{
  validation, not_found, panic, AppResult, SshAdvancedOptions, default_advanced, default_patch,
  apply_to, AuthMethod, private_key, interactive, HostProfile, HostDraft, TunnelProfile,
  TunnelDraft, CommandPreset, CommandPresetDraft, PersistedState,
}
use remote_deck.Store.Validate.{
  is_private_key, validate_host_draft, validate_advanced, validate_tunnel_draft,
  validate_command_draft, normalize_optional, normalize_groups,
}
use remote_deck.Store.Proxies.{find_host, normalize_proxy_jump_for, validate_proxy_jump_role}

-- Replace the first value of the same id, or push.
module _ {A : Type 0} (id_of : A → Text) where
  unfoldable pub upsert : A → List A → List A
  upsert a [] = a ∷ []
  upsert a (x ∷ xs) = if text_eq (id_of x) (id_of a) then a ∷ xs else x ∷ upsert a xs

-- `draft.id.as_deref() != Some(id)`.
abbrev pub is_other : Option Text → Text → Bool
is_other draft_id id = not (is_some_and draft_id (λ i. text_eq i id))

-- The value that the draft edits.
abbrev pub edited {ℓ} : {A : Type ℓ} → Option Text → (Text → Option A) → Option A
edited none find_by = none
edited (some id) find_by = find_by id

abbrev pub field_or {ℓ κ} : {A : Type ℓ} {B : Type κ} → Option A → (A → B) → B → B
field_or none f d = d
field_or (some a) f d = f a

abbrev pub choose_auth_method : HostDraft → Option HostProfile → Option Text → AuthMethod
choose_auth_method draft existing identity_file = elim draft.auth_method [
  | some method ↦ method
  | none ↦
      field_or existing (λ host. host.auth_method)
        (if is_some identity_file then private_key else interactive)
]

-- The profile that a draft makes, once its checks have passed.
unfoldable pub host_profile :
    HostDraft → Option HostProfile → SshAdvancedOptions → AuthMethod → ℕ → Text → HostProfile
host_profile draft existing advanced auth_method now new_id = record {
  schema_version = 2;
  id = field_or existing (λ host. host.id) new_id;
  alias = trim draft.alias;
  hostname = trim draft.hostname;
  port = draft.port;
  username = trim draft.username;
  auth_method = auth_method;
  identity_file =
      if is_private_key auth_method then normalize_optional draft.identity_file else none;
  proxy_jump = normalize_optional draft.proxy_jump;
  default_workspace = unwrap_or (normalize_optional draft.default_workspace) (codes "~");
  groups = normalize_groups draft.groups;
  advanced = advanced;
  monitor_enabled = unwrap_or draft.monitor_enabled true;
  created_at = field_or existing (λ host. host.created_at) now;
  updated_at = now;
}

unfoldable pub apply_host_draft :
    PersistedState → HostDraft → ℕ → Text → AppResult (PersistedState × HostProfile)
apply_host_draft state draft now new_id = do
  validate_host_draft draft
  fail_if
      (any (λ host. eq_ignore_ascii_case host.alias (trim draft.alias) && is_other draft.id host.id)
        state.hosts)
      validation
  let existing = edited draft.id (λ id. find_host id state.hosts)
  fail_if (is_some draft.id && is_none existing) not_found
  let advanced =
      apply_to (unwrap_or draft.advanced default_patch)
        (field_or existing (λ host. host.advanced) default_advanced)
  validate_advanced advanced
  let requested = normalize_optional draft.identity_file
  let auth_method = choose_auth_method draft existing requested
  fail_if (is_private_key auth_method && is_none requested) validation
  let profile = host_profile draft existing advanced auth_method now new_id
  ok (record state { hosts = upsert (λ host. host.id) profile state.hosts }, profile)

-- Hosts that refer to a host by its former alias refer to its id from now on.
abbrev pub redirect : Text → Text → List HostProfile → List HostProfile
redirect previous id hosts =
    map
      (λ dependent.
        if is_some_and dependent.proxy_jump (λ reference. eq_ignore_ascii_case reference previous)
        then record dependent { proxy_jump = some id }
        else dependent)
      hosts

abbrev pub redirect_renamed : Option Text → HostProfile → List HostProfile → List HostProfile
redirect_renamed none profile hosts = hosts
redirect_renamed (some previous) profile hosts =
    if eq_ignore_ascii_case previous profile.alias
    then hosts
    else redirect previous profile.id hosts

unfoldable pub apply_host_update :
    PersistedState → HostDraft → ℕ → Text → AppResult (PersistedState × HostProfile)
apply_host_update state draft now new_id = do
  let previous =
      field_or (edited draft.id (λ id. find_host id state.hosts)) (λ host. some host.alias) none
  applied ← apply_host_draft state draft now new_id
  let profile = applied.1
  hosts ← normalize_proxy_jump_for (redirect_renamed previous profile applied.0.hosts) profile.id
  validate_proxy_jump_role hosts profile.id
  stored ← ok_or (find_host profile.id hosts) panic
  ok (record (applied.0) { hosts = hosts }, stored)

abbrev pub find_tunnel : Text → List TunnelProfile → Option TunnelProfile
find_tunnel id tunnels = find (λ tunnel. text_eq tunnel.id id) tunnels

unfoldable pub tunnel_profile : TunnelDraft → Option TunnelProfile → ℕ → Text → TunnelProfile
tunnel_profile draft existing now new_id = record {
  schema_version = 2;
  id = field_or existing (λ item. item.id) new_id;
  host_id = draft.host_id;
  name = trim draft.name;
  direction = draft.direction;
  bind_address = trim draft.bind_address;
  source_port = draft.source_port;
  target_host = trim draft.target_host;
  target_port = draft.target_port;
  auto_start = unwrap_or draft.auto_start false;
  auto_reconnect = unwrap_or draft.auto_reconnect false;
  health_check = draft.health_check;
  created_at = field_or existing (λ item. item.created_at) now;
  updated_at = now;
}

abbrev pub has_host : Text → List HostProfile → Bool
has_host id hosts = any (λ host. text_eq host.id id) hosts

unfoldable pub apply_tunnel_draft :
    PersistedState → TunnelDraft → ℕ → Text → AppResult (PersistedState × TunnelProfile)
apply_tunnel_draft state draft now new_id = do
  validate_tunnel_draft draft
  fail_if (not (has_host draft.host_id state.hosts)) not_found
  fail_if
      (any
        (λ item.
          text_eq item.host_id draft.host_id
          && eq_ignore_ascii_case item.name (trim draft.name)
          && is_other draft.id item.id)
        state.tunnels)
      validation
  let existing = edited draft.id (λ id. find_tunnel id state.tunnels)
  fail_if (is_some draft.id && is_none existing) not_found
  let profile = tunnel_profile draft existing now new_id
  ok (record state { tunnels = upsert (λ item. item.id) profile state.tunnels }, profile)

abbrev pub find_command : Text → List CommandPreset → Option CommandPreset
find_command id commands = find (λ command. text_eq command.id id) commands

-- `==` of optional texts.
abbrev pub same_scope : Option Text → Option Text → Bool
same_scope none none = true
same_scope none (some b) = false
same_scope (some a) none = false
same_scope (some a) (some b) = text_eq a b

unfoldable pub command_preset : CommandPresetDraft → Option CommandPreset → ℕ → Text → CommandPreset
command_preset draft existing now new_id = record {
  schema_version = 2;
  id = field_or existing (λ command. command.id) new_id;
  host_id = draft.host_id;
  name = trim draft.name;
  description = trim draft.description;
  group = trim draft.group;
  command = trim draft.command;
  working_directory = normalize_optional draft.working_directory;
  risk = draft.risk;
  requires_pty = draft.requires_pty;
  requires_sudo = draft.requires_sudo;
  confirmation_text = normalize_optional draft.confirmation_text;
  sort_order = draft.sort_order;
  created_at = field_or existing (λ command. command.created_at) now;
  updated_at = now;
}

unfoldable pub apply_command_draft :
    PersistedState → CommandPresetDraft → ℕ → Text → AppResult (PersistedState × CommandPreset)
apply_command_draft state draft now new_id = do
  validate_command_draft draft
  fail_if (is_some_and draft.host_id (λ id. not (has_host id state.hosts))) not_found
  fail_if
      (any
        (λ command.
          same_scope command.host_id draft.host_id
          && eq_ignore_ascii_case command.name (trim draft.name)
          && is_other draft.id command.id)
        state.command_presets)
      validation
  let existing = edited draft.id (λ id. find_command id state.command_presets)
  fail_if (is_some draft.id && is_none existing) not_found
  let command = command_preset draft existing now new_id
  ok (
    record state { command_presets = upsert (λ item. item.id) command state.command_presets },
    command,
  )
