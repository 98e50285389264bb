-- ===== src/Store/Persisted.antt =====
-- `validate_persisted_state` of store.rs, which guards every read and write of the state.
use remote_deck.Base.{
  ℕ, Bool, false, ◌&&◌, ◌||◌, not, none, some, List, [], ◌∷◌, ◌++◌, text_eq, eq_ignore_ascii_case,
  any, ltb, ◌==◌, if◌then◌else◌, is_some, is_some_and, length, ok, err, ◌>>◌, fail_if,
}
use remote_deck.Model.{
  state, AppResult, HostProfile, HostDraft, TunnelProfile, TunnelDraft, CommandPreset,
  CommandPresetDraft, PersistedState,
}
use remote_deck.Store.Validate.{
  validate_host_draft, validate_advanced, validate_tunnel_draft, validate_command_draft,
  is_bad_hash, is_private_key,
}
use remote_deck.Store.Apply.{has_host, same_scope}

abbrev pub max_hosts : ℕ
max_hosts = 512

abbrev pub max_tunnels : ℕ
max_tunnels = 2048

abbrev pub max_command_presets : ℕ
max_command_presets = 4096

abbrev pub max_imported_source_hashes : ℕ
max_imported_source_hashes = 4096

-- `map_err(|error| AppError::State(…))`.
abbrev pub as_state_error : {A : Type 0} → AppResult A → AppResult A
as_state_error (ok a) = ok a
as_state_error (err e) = err state

abbrev pub host_as_draft : HostProfile → HostDraft
host_as_draft host = record {
  id = some host.id;
  alias = host.alias;
  hostname = host.hostname;
  port = host.port;
  username = host.username;
  auth_method = some host.auth_method;
  identity_file = host.identity_file;
  proxy_jump = host.proxy_jump;
  default_workspace = some host.default_workspace;
  groups = host.groups;
  advanced = none;
  monitor_enabled = some host.monitor_enabled;
}

abbrev pub tunnel_as_draft : TunnelProfile → TunnelDraft
tunnel_as_draft tunnel = record {
  id = some tunnel.id;
  host_id = tunnel.host_id;
  name = tunnel.name;
  direction = tunnel.direction;
  bind_address = tunnel.bind_address;
  source_port = tunnel.source_port;
  target_host = tunnel.target_host;
  target_port = tunnel.target_port;
  auto_start = some tunnel.auto_start;
  auto_reconnect = some tunnel.auto_reconnect;
  health_check = tunnel.health_check;
}

abbrev pub command_as_draft : CommandPreset → CommandPresetDraft
command_as_draft command = record {
  id = some command.id;
  host_id = command.host_id;
  name = command.name;
  description = command.description;
  group = command.group;
  command = command.command;
  working_directory = command.working_directory;
  risk = command.risk;
  requires_pty = command.requires_pty;
  requires_sudo = command.requires_sudo;
  confirmation_text = command.confirmation_text;
  sort_order = command.sort_order;
}

abbrev pub host_clash : HostProfile → HostProfile → Bool
host_clash host other = text_eq other.id host.id || eq_ignore_ascii_case other.alias host.alias

abbrev pub tunnel_clash : TunnelProfile → TunnelProfile → Bool
tunnel_clash tunnel other =
    text_eq other.id tunnel.id
    || (text_eq other.host_id tunnel.host_id && eq_ignore_ascii_case other.name tunnel.name)

abbrev pub command_clash : CommandPreset → CommandPreset → Bool
command_clash command other =
    text_eq other.id command.id
    || (same_scope other.host_id command.host_id && eq_ignore_ascii_case other.name command.name)

-- The loops over the lists; the first argument is what stands before the index.
unfoldable pub validate_hosts : List HostProfile → List HostProfile → AppResult (Unit {0})
validate_hosts before [] = ok tt
validate_hosts before (host ∷ hosts) = do
  as_state_error (validate_host_draft (host_as_draft host))
  as_state_error (validate_advanced host.advanced)
  fail_if (any (host_clash host) before) state
  validate_hosts (before ++ host ∷ []) hosts

unfoldable pub validate_tunnels :
    List HostProfile → List TunnelProfile → List TunnelProfile → AppResult (Unit {0})
validate_tunnels hosts before [] = ok tt
validate_tunnels hosts before (tunnel ∷ tunnels) = do
  as_state_error (validate_tunnel_draft (tunnel_as_draft tunnel))
  fail_if (not (has_host tunnel.host_id hosts)) state
  fail_if (any (tunnel_clash tunnel) before) state
  validate_tunnels hosts (before ++ tunnel ∷ []) tunnels

unfoldable pub validate_commands :
    List HostProfile → List CommandPreset → List CommandPreset → AppResult (Unit {0})
validate_commands hosts before [] = ok tt
validate_commands hosts before (command ∷ commands) = do
  as_state_error (validate_command_draft (command_as_draft command))
  fail_if (is_some_and command.host_id (λ id. not (has_host id hosts))) state
  fail_if (any (command_clash command) before) state
  validate_commands hosts (before ++ command ∷ []) commands

unfoldable pub validate_persisted_state : PersistedState → AppResult (Unit {0})
validate_persisted_state s = do
  fail_if (not (s.schema_version == 2)) state
  fail_if
      (ltb max_hosts (length s.hosts)
        || ltb max_tunnels (length s.tunnels)
        || ltb max_command_presets (length s.command_presets)
        || ltb max_imported_source_hashes (length s.imported_source_hashes))
      state
  validate_hosts [] s.hosts
  validate_tunnels s.hosts [] s.tunnels
  validate_commands s.hosts [] s.command_presets
  fail_if (any is_bad_hash s.imported_source_hashes) state

-- `clear_inactive_identity_files`: the hosts after it, and whether one changed.
unfoldable pub clear_inactive_identity_files : List HostProfile → List HostProfile × Bool
clear_inactive_identity_files [] = ([], false)
clear_inactive_identity_files (host ∷ hosts) =
    let (rest, changed) = clear_inactive_identity_files hosts in
    if is_private_key host.auth_method
    then (host ∷ rest, changed)
    else (record host { identity_file = none } ∷ rest, is_some host.identity_file || changed)
