-- ===== src/Model.antt =====
-- crates/remotedeck-core/src/model.rs and error.rs: the records that are stored and the drafts that
-- change them. A `DateTime<Utc>` is a number, and so are the unsigned integers.
use remote_deck.Base.{
  ℕ, ℤ, Bool, true, false, Option, none, List, [], Text, codes, unwrap_or, Result,
}

-- `AppError` without its messages. `panic` stands for a failed `expect`.
pub data AppError : Type 0 where
  io state validation not_found missing_executable process process_cleanup : AppError
  cancelled timeout json archive panic : AppError

abbrev pub AppResult : Type 0 → Type 0
AppResult A = Result AppError A

pub record SshAdvancedOptions : Type 0 where
  pub connect_timeout_seconds : ℕ
  pub server_alive_interval_seconds : ℕ
  pub server_alive_count_max : ℕ
  pub tcp_keep_alive : Bool
  pub compression : Bool
  pub identities_only : Bool

abbrev pub default_advanced : SshAdvancedOptions
default_advanced = record {
  connect_timeout_seconds = 15;
  server_alive_interval_seconds = 30;
  server_alive_count_max = 3;
  tcp_keep_alive = true;
  compression = false;
  identities_only = false;
}

pub record SshAdvancedPatch : Type 0 where
  pub connect_timeout_seconds : Option ℕ
  pub server_alive_interval_seconds : Option ℕ
  pub server_alive_count_max : Option ℕ
  pub tcp_keep_alive : Option Bool
  pub compression : Option Bool
  pub identities_only : Option Bool

abbrev pub default_patch : SshAdvancedPatch
default_patch = record {
  connect_timeout_seconds = none;
  server_alive_interval_seconds = none;
  server_alive_count_max = none;
  tcp_keep_alive = none;
  compression = none;
  identities_only = none;
}

unfoldable pub apply_to : SshAdvancedPatch → SshAdvancedOptions → SshAdvancedOptions
apply_to p value = record {
  connect_timeout_seconds = unwrap_or p.connect_timeout_seconds value.connect_timeout_seconds;
  server_alive_interval_seconds =
      unwrap_or p.server_alive_interval_seconds value.server_alive_interval_seconds;
  server_alive_count_max = unwrap_or p.server_alive_count_max value.server_alive_count_max;
  tcp_keep_alive = unwrap_or p.tcp_keep_alive value.tcp_keep_alive;
  compression = unwrap_or p.compression value.compression;
  identities_only = unwrap_or p.identities_only value.identities_only;
}

pub data AuthMethod : Type 0 where
  interactive private_key agent : AuthMethod

pub record HostProfile : Type 0 where
  pub schema_version : ℕ
  pub id : Text
  pub alias : Text
  pub hostname : Text
  pub port : ℕ
  pub username : Text
  pub auth_method : AuthMethod
  pub identity_file : Option Text
  pub proxy_jump : Option Text
  pub default_workspace : Text
  pub groups : List Text
  pub advanced : SshAdvancedOptions
  pub monitor_enabled : Bool
  pub created_at : ℕ
  pub updated_at : ℕ

pub record HostDraft : Type 0 where
  pub id : Option Text
  pub alias : Text
  pub hostname : Text
  pub port : ℕ
  pub username : Text
  pub auth_method : Option AuthMethod
  pub identity_file : Option Text
  pub proxy_jump : Option Text
  pub default_workspace : Option Text
  pub groups : List Text
  pub advanced : Option SshAdvancedPatch
  pub monitor_enabled : Option Bool

pub data TunnelDirection : Type 0 where
  local remote : TunnelDirection

pub data TunnelHealthCheckKind : Type 0 where
  unchecked tcp : TunnelHealthCheckKind

pub record TunnelHealthCheck : Type 0 where
  pub kind : TunnelHealthCheckKind
  pub interval_seconds : ℕ
  pub timeout_seconds : ℕ

pub record TunnelProfile : Type 0 where
  pub schema_version : ℕ
  pub id : Text
  pub host_id : Text
  pub name : Text
  pub direction : TunnelDirection
  pub bind_address : Text
  pub source_port : ℕ
  pub target_host : Text
  pub target_port : ℕ
  pub auto_start : Bool
  pub auto_reconnect : Bool
  pub health_check : Option TunnelHealthCheck
  pub created_at : ℕ
  pub updated_at : ℕ

pub record TunnelDraft : Type 0 where
  pub id : Option Text
  pub host_id : Text
  pub name : Text
  pub direction : TunnelDirection
  pub bind_address : Text
  pub source_port : ℕ
  pub target_host : Text
  pub target_port : ℕ
  pub auto_start : Option Bool
  pub auto_reconnect : Option Bool
  pub health_check : Option TunnelHealthCheck

pub record AppSettings : Type 0 where
  pub schema_version : ℕ
  pub terminal_font_family : Text
  pub terminal_font_size : ℕ
  pub telemetry_interval_seconds : ℕ
  pub telemetry_retention_minutes : ℕ
  pub download_directory : Text
  pub auto_reconnect : Bool
  pub close_to_tray : Bool
  pub launch_at_login : Bool
  pub btop_watchdog_enabled : Bool
  pub btop_rotation_minutes : ℕ
  pub log_level : Text
  pub onboarding_completed : Bool
  pub default_agent : Text

abbrev pub default_settings : AppSettings
default_settings = record {
  schema_version = 2;
  terminal_font_family = codes "Cascadia Mono, Consolas, monospace";
  terminal_font_size = 14;
  telemetry_interval_seconds = 3;
  telemetry_retention_minutes = 30;
  download_directory = [];
  auto_reconnect = true;
  close_to_tray = true;
  launch_at_login = false;
  btop_watchdog_enabled = false;
  btop_rotation_minutes = 15;
  log_level = codes "info";
  onboarding_completed = false;
  default_agent = codes "codex";
}

pub record SettingsPatch : Type 0 where
  pub terminal_font_family : Option Text
  pub terminal_font_size : Option ℕ
  pub telemetry_interval_seconds : Option ℕ
  pub telemetry_retention_minutes : Option ℕ
  pub download_directory : Option Text
  pub auto_reconnect : Option Bool
  pub close_to_tray : Option Bool
  pub launch_at_login : Option Bool
  pub btop_watchdog_enabled : Option Bool
  pub btop_rotation_minutes : Option ℕ
  pub log_level : Option Text
  pub onboarding_completed : Option Bool
  pub default_agent : Option Text

pub data CommandRisk : Type 0 where
  l0 l1 l2 : CommandRisk

pub record CommandPreset : Type 0 where
  pub schema_version : ℕ
  pub id : Text
  pub host_id : Option Text
  pub name : Text
  pub description : Text
  pub group : Text
  pub command : Text
  pub working_directory : Option Text
  pub risk : CommandRisk
  pub requires_pty : Bool
  pub requires_sudo : Bool
  pub confirmation_text : Option Text
  pub sort_order : ℤ
  pub created_at : ℕ
  pub updated_at : ℕ

pub record CommandPresetDraft : Type 0 where
  pub id : Option Text
  pub host_id : Option Text
  pub name : Text
  pub description : Text
  pub group : Text
  pub command : Text
  pub working_directory : Option Text
  pub risk : CommandRisk
  pub requires_pty : Bool
  pub requires_sudo : Bool
  pub confirmation_text : Option Text
  pub sort_order : ℤ

pub record PersistedState : Type 0 where
  pub schema_version : ℕ
  pub settings : AppSettings
  pub hosts : List HostProfile
  pub tunnels : List TunnelProfile
  pub command_presets : List CommandPreset
  pub imported_source_hashes : List Text

abbrev pub default_state : PersistedState
default_state = record {
  schema_version = 2;
  settings = default_settings;
  hosts = [];
  tunnels = [];
  command_presets = [];
  imported_source_hashes = [];
}
