-- ===== src/Store/Repository.antt =====
-- `AppRepository` of store.rs. Its two locks make each operation a step on the state and the set of
-- hosts being deleted. An operation works on a copy of the state and stores it only after the write
-- to disk; `disk` stands for serialization and the atomic replacement of the file, which may fail.
use remote_deck.Base.{
  ℕ, Bool, not, Option, List, ◌∷◌, Text, text_eq, eq_ignore_ascii_case, any, retain, ◌==◌,
  if◌then◌else◌, is_some_and, length, ok, err, ◌>>=◌, ◌>>◌, fail_if, ok_or,
}
use remote_deck.Model.{
  state, not_found, AppResult, HostProfile, HostDraft, TunnelProfile, TunnelDraft, CommandPreset,
  CommandPresetDraft, AppSettings, SettingsPatch, PersistedState,
}
use remote_deck.Store.Proxies.{find_host, resolve_proxy_jump, validate_host_deletion_state}
use remote_deck.Store.Apply.{
  apply_host_update, apply_tunnel_draft, apply_command_draft, find_tunnel, find_command, has_host,
}
use remote_deck.Store.Settings.{apply_settings_patch}
use remote_deck.Store.Persisted.{validate_persisted_state}

pub record AppRepository : Type 0 where
  pub stored : PersistedState
  pub deleting_hosts : List Text

abbrev pub contains : List Text → Text → Bool
contains ids id = any (λ i. text_eq i id) ids

-- Reads.
unfoldable pub host : AppRepository → Text → AppResult HostProfile
host repo host_id = do
  fail_if (contains repo.deleting_hosts host_id) state
  ok_or (find_host host_id repo.stored.hosts) not_found

abbrev pub is_deleting : AppRepository → Option HostProfile → Bool
is_deleting repo jump = is_some_and jump (λ j. contains repo.deleting_hosts j.id)

unfoldable pub resolve_jump_host : AppRepository → HostProfile → AppResult (Option HostProfile)
resolve_jump_host repo host = do
  jump ← resolve_proxy_jump repo.stored.hosts host
  fail_if (is_deleting repo jump) state
  ok jump

unfoldable pub tunnel : AppRepository → Text → AppResult TunnelProfile
tunnel repo tunnel_id = ok_or (find_tunnel tunnel_id repo.stored.tunnels) not_found

unfoldable pub command : AppRepository → Text → AppResult CommandPreset
command repo command_id = ok_or (find_command command_id repo.stored.command_presets) not_found

unfoldable pub has_import : AppRepository → Text → Bool
has_import repo source_hash =
    any (λ hash. eq_ignore_ascii_case hash source_hash) repo.stored.imported_source_hashes

unfoldable pub ensure_host_deletable : AppRepository → Text → AppResult (Unit {0})
ensure_host_deletable repo host_id = do
  fail_if (contains repo.deleting_hosts host_id) state
  validate_host_deletion_state repo.stored.hosts host_id

-- `preview_host`: the new state and profile, before anything is written.
unfoldable pub preview_host :
    AppRepository → HostDraft → ℕ → Text → AppResult (PersistedState × HostProfile)
preview_host repo draft now new_id = do
  fail_if (is_some_and draft.id (contains repo.deleting_hosts)) state
  applied ← apply_host_update repo.stored draft now new_id
  jump ← resolve_proxy_jump applied.0.hosts applied.1
  fail_if (is_deleting repo jump) state
  ok applied

-- The end of `begin_host_deletion`, once its checks have given a result.
unfoldable pub mark_deleting :
    Text → AppRepository → AppResult (Unit {0}) → AppRepository × AppResult (Unit {0})
mark_deleting host_id repo (ok _) =
    (record repo { deleting_hosts = host_id ∷ repo.deleting_hosts }, ok tt)
mark_deleting host_id repo (err e) = (repo, err e)

unfoldable pub begin_host_deletion : Text → AppRepository → AppRepository × AppResult (Unit {0})
begin_host_deletion host_id repo = mark_deleting host_id repo (do
  fail_if (contains repo.deleting_hosts host_id) state
  validate_host_deletion_state repo.stored.hosts host_id)

abbrev pub removed_from : Text → List Text → List Text
removed_from host_id ids = retain (λ i. not (text_eq i host_id)) ids

unfoldable pub abort_host_deletion : Text → AppRepository → AppRepository
abort_host_deletion host_id repo = record repo {
  deleting_hosts = removed_from host_id repo.deleting_hosts;
}

-- The state without a host, its tunnels and its commands.
abbrev pub without_host : Text → PersistedState → PersistedState
without_host host_id s = record s {
  hosts = retain (λ host. not (text_eq host.id host_id)) s.hosts;
  tunnels = retain (λ tunnel. not (text_eq tunnel.host_id host_id)) s.tunnels;
  command_presets =
      retain (λ command. not (is_some_and command.host_id (λ owner. text_eq owner host_id)))
        s.command_presets;
}

module _ (disk : PersistedState → AppResult (Unit {0})) where
  -- `persist_locked` and `write_state`.
  unfoldable pub write_state : PersistedState → AppResult (Unit {0})
  write_state s = do validate_persisted_state s; disk s

  -- Store the state that an operation made, or leave the repository as it was.
  abbrev pub commit :
      {A : Type 0} → AppRepository → AppResult (PersistedState × A) → AppRepository × AppResult A
  commit repo (err e) = (repo, err e)
  commit repo (ok (s, a)) = (record repo { stored = s }, ok a)

  -- `persist_locked(…)?` on a made state.
  abbrev pub persisted : {A : Type 0} → PersistedState × A → AppResult (PersistedState × A)
  persisted made = do write_state made.0; ok made

  unfoldable pub save_host :
      HostDraft → ℕ → Text → AppRepository → AppRepository × AppResult HostProfile
  save_host draft now new_id repo = commit repo (preview_host repo draft now new_id >>= persisted)

  unfoldable pub delete_host_locked : Text → AppRepository → AppRepository × AppResult (Unit {0})
  delete_host_locked host_id repo = commit repo (do
    validate_host_deletion_state repo.stored.hosts host_id
    let s = without_host host_id repo.stored
    fail_if (length repo.stored.hosts == length s.hosts) not_found
    persisted (s, tt))

  unfoldable pub finish_host_deletion : Text → AppRepository → AppRepository × AppResult (Unit {0})
  unfolding delete_host_locked
  finish_host_deletion host_id repo =
      if not (contains repo.deleting_hosts host_id)
      then (repo, err state)
      else let (repo', result) = delete_host_locked host_id repo in
        (record repo' { deleting_hosts = removed_from host_id repo'.deleting_hosts }, result)

  unfoldable pub save_tunnel :
      TunnelDraft → ℕ → Text → AppRepository → AppRepository × AppResult TunnelProfile
  save_tunnel draft now new_id repo = commit repo (do
    fail_if (contains repo.deleting_hosts draft.host_id) state
    applied ← apply_tunnel_draft repo.stored draft now new_id
    persisted applied)

  unfoldable pub delete_tunnel : Text → AppRepository → AppRepository × AppResult (Unit {0})
  delete_tunnel tunnel_id repo = commit repo (do
    let s = record (repo.stored) {
      tunnels = retain (λ tunnel. not (text_eq tunnel.id tunnel_id)) repo.stored.tunnels;
    }
    fail_if (length repo.stored.tunnels == length s.tunnels) not_found
    persisted (s, tt))

  unfoldable pub save_command :
      CommandPresetDraft → ℕ → Text → AppRepository → AppRepository × AppResult CommandPreset
  save_command draft now new_id repo = commit repo (do
    fail_if (is_some_and draft.host_id (contains repo.deleting_hosts)) state
    applied ← apply_command_draft repo.stored draft now new_id
    persisted applied)

  unfoldable pub delete_command_for_host :
      Text → Text → AppRepository → AppRepository × AppResult (Unit {0})
  delete_command_for_host command_id host_id repo = commit repo (do
    fail_if (contains repo.deleting_hosts host_id) state
    fail_if (not (has_host host_id repo.stored.hosts)) not_found
    found ← ok_or (find_command command_id repo.stored.command_presets) not_found
    fail_if (is_some_and found.host_id (λ owner. not (text_eq owner host_id))) state
    persisted (
      record (repo.stored) {
        command_presets =
            retain (λ command. not (text_eq command.id command_id)) repo.stored.command_presets;
      },
      tt,
    ))

  unfoldable pub update_settings :
      SettingsPatch → AppRepository → AppRepository × AppResult AppSettings
  update_settings patch repo = commit repo (do
    settings ← apply_settings_patch repo.stored.settings patch
    persisted (record (repo.stored) { settings = settings }, settings))
