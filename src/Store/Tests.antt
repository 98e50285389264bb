-- ===== src/Store/Tests.antt =====
-- Concrete runs of the repository of store.rs and the theorems applied to them.
use remote_deck.Base.{
  decimal, ◌≡◌, refl, true, false, none, some, List, [], ◌∷◌, codes, length, is_ascii_alphanumeric,
  ok, err, arith, text_eq, eq_ignore_ascii_case, trim, byte_len, is_whitespace, is_control,
  starts_with,
}
use remote_deck.Model.{
  apply_to, AppResult, state, not_found, HostProfile, TunnelProfile, TunnelDraft, PersistedState,
  default_state, default_settings, default_advanced, interactive, local, SettingsPatch,
}
use remote_deck.Store.Validate.{
  normalize_optional, normalize_groups, validate_command_draft, validate_ssh_atom,
  validate_forward_atom, validate_host_draft, validate_advanced, validate_tunnel_draft,
}
use remote_deck.Store.Proxies.{
  validate_host_deletion_state, proxy_reference_matches_host, resolve_proxy_reference,
  resolve_proxy_jump, resolve_trimmed, check_jump, validate_proxy_jump_role,
  normalize_proxy_jump_for, normalize_reference, set_proxy_jump,
}
use remote_deck.Store.Apply.{
  upsert, apply_tunnel_draft, tunnel_profile, apply_command_draft, command_preset, apply_host_draft,
  apply_host_update, host_profile,
}
use remote_deck.Store.Settings.{apply_settings_patch, apply_rest}
use remote_deck.Store.Persisted.{
  validate_persisted_state, validate_hosts, validate_tunnels, validate_commands,
}
use remote_deck.Store.Repository.{
  tunnel, command, preview_host, save_host, delete_tunnel, save_command, AppRepository, contains,
  host, begin_host_deletion, mark_deleting, write_state, delete_host_locked, finish_host_deletion,
  save_tunnel,
}
use remote_deck.Store.Steps.{
  Operation, save_a_tunnel, begin_deletion, step, run, step-IsAtomic, run-IsConsistent, IsAtomic,
}
use remote_deck.Store.Consistent.{IsConsistent}
use remote_deck.Store.Deletion.{IsDeleted, finish_host_deletion_ok}
use remote_deck.Store.Blocking.{concerns, IsRefused}
use remote_deck.Store.Frozen.{leaves_deleting, run-deleting_blocks}
use remote_deck.Store.Ranges.{IsInRange, apply_settings_patch-IsInRange}

abbrev pub disk : PersistedState → AppResult (Unit {0})
disk s = ok tt

abbrev pub box : HostProfile
box = record {
  schema_version = 2;
  id = codes "h1";
  alias = codes "box";
  hostname = codes "10.0.0.5";
  port = 22;
  username = codes "ann";
  auth_method = interactive;
  identity_file = none;
  proxy_jump = none;
  default_workspace = codes "~";
  groups = [];
  advanced = default_advanced;
  monitor_enabled = true;
  created_at = 1;
  updated_at = 1;
}

abbrev pub web : TunnelProfile
web = record {
  schema_version = 2;
  id = codes "t1";
  host_id = codes "h1";
  name = codes "web";
  direction = local;
  bind_address = codes "127.0.0.1";
  source_port = 8080;
  target_host = codes "localhost";
  target_port = 80;
  auto_start = false;
  auto_reconnect = false;
  health_check = none;
  created_at = 1;
  updated_at = 1;
}

abbrev one_host : PersistedState
one_host = record default_state { hosts = box ∷ []; tunnels = web ∷ [] }

abbrev pub repo : AppRepository
repo = record { stored = one_host; deleting_hosts = [] }

abbrev deleting : AppRepository
deleting = record { stored = one_host; deleting_hosts = codes "h1" ∷ [] }

abbrev pub db_draft : TunnelDraft
db_draft = record {
  id = none;
  host_id = codes "h1";
  name = codes " db ";
  direction = local;
  bind_address = codes "127.0.0.1";
  source_port = 5432;
  target_host = codes "db";
  target_port = 5432;
  auto_start = none;
  auto_reconnect = some true;
  health_check = none;
}

abbrev pub bigger_font : SettingsPatch
bigger_font = record {
  terminal_font_family = none;
  terminal_font_size = some 20;
  telemetry_interval_seconds = none;
  telemetry_retention_minutes = none;
  download_directory = none;
  auto_reconnect = none;
  close_to_tray = none;
  launch_at_login = none;
  btop_watchdog_enabled = none;
  btop_rotation_minutes = none;
  log_level = none;
  onboarding_completed = none;
  default_agent = none;
}

unfoldable pub repository : Unit {0}
unfolding validate_persisted_state validate_hosts validate_tunnels validate_commands
    validate_host_draft validate_advanced validate_tunnel_draft validate_ssh_atom
    validate_forward_atom trim byte_len is_whitespace is_control starts_with text_eq
    is_ascii_alphanumeric eq_ignore_ascii_case run step write_state save_tunnel apply_tunnel_draft
    tunnel_profile delete_host_locked finish_host_deletion begin_host_deletion mark_deleting
    validate_host_deletion_state host concerns apply_settings_patch apply_rest upsert tunnel command
    delete_tunnel save_command apply_command_draft command_preset validate_command_draft
    normalize_optional normalize_groups save_host preview_host apply_host_draft apply_host_update
    host_profile apply_to resolve_proxy_reference resolve_proxy_jump resolve_trimmed check_jump
    validate_proxy_jump_role normalize_proxy_jump_for normalize_reference set_proxy_jump
    proxy_reference_matches_host leaves_deleting decimal
repository = tt

one_host-valid : validate_persisted_state one_host ≡ ok tt
unfolding repository
one_host-valid = refl

abbrev calls : List Operation
calls =
    save_a_tunnel db_draft 5 (codes "t2")
    ∷ begin_deletion (codes "h1")
    ∷ save_a_tunnel db_draft 6 (codes "t3")
    ∷ []

-- The first tunnel is stored, and the one asked for during the deletion is not.
two_tunnels : length (run disk calls repo).stored.tunnels ≡ 2
unfolding repository
two_tunnels = refl

run-IsConsistent_example : IsConsistent (run disk calls repo).stored
run-IsConsistent_example = run-IsConsistent disk calls repo one_host-valid

step-IsAtomic_example :
    IsAtomic disk one_host (step disk (save_a_tunnel db_draft 5 (codes "t2")) repo)
step-IsAtomic_example = step-IsAtomic disk (save_a_tunnel db_draft 5 (codes "t2")) repo

box_deleted : (finish_host_deletion disk (codes "h1") deleting).1 ≡ ok tt
unfolding repository
box_deleted = refl

finish_host_deletion_ok_example :
    (contains deleting.deleting_hosts (codes "h1") ≡ true)
    × IsDeleted (codes "h1") one_host (finish_host_deletion disk (codes "h1") deleting).0.stored
    × (host (finish_host_deletion disk (codes "h1") deleting).0 (codes "h1") ≡ err not_found)
finish_host_deletion_ok_example = finish_host_deletion_ok disk (codes "h1") deleting box_deleted

run-deleting_blocks_example :
    IsRefused
      (run disk calls deleting)
      (step disk (save_a_tunnel db_draft 9 (codes "t4")) (run disk calls deleting))
    × (host (run disk calls deleting) (codes "h1") ≡ err state)
unfolding repository
run-deleting_blocks_example =
    run-deleting_blocks disk (codes "h1") calls (save_a_tunnel db_draft 9 (codes "t4")) deleting
      refl refl refl

apply_settings_patch-IsInRange_example :
    IsInRange (record default_settings { terminal_font_size = 20 })
unfolding repository
apply_settings_patch-IsInRange_example =
    apply_settings_patch-IsInRange default_settings
      (record default_settings { terminal_font_size = 20 }) bigger_font
      (
        (omega arith, omega arith),
        (omega arith, omega arith),
        (omega arith, omega arith),
        (omega arith, omega arith),
        refl,
        refl,
      )
      refl
