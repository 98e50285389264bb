-- ===== src/Store/Import.antt =====
-- The imports of store.rs: `import_hosts`, `import_batch` and what they use. The n-th record that an
-- import adds takes the time `clock n` and the id `fresh n`.
use remote_deck.Base.{
  ℕ, suc, ◌+◌, Bool, true, false, ◌&&◌, not, Option, none, some, List, [], ◌∷◌, ◌++◌, map, Text,
  Map, get, insert, to_ascii_lowercase, if◌then◌else◌, is_empty, is_some, is_none, length, ok, err,
  ◌>>=◌, ◌>>◌, fail_if, ok_or,
}
use remote_deck.Model.{
  state, validation, panic, AppResult, HostProfile, HostDraft, TunnelDraft, CommandPresetDraft,
  SettingsPatch, PersistedState,
}
use remote_deck.Store.Validate.{validate_import_hash, validate_import_source_id}
use remote_deck.Store.Proxies.{find_host, normalize_proxy_jump_for, validate_proxy_jump_role}
use remote_deck.Store.Apply.{apply_host_draft, apply_tunnel_draft, apply_command_draft}
use remote_deck.Store.Settings.{apply_settings_patch}
use remote_deck.Store.Repository.{AppRepository, commit, persisted, contains, has_import}

pub data ImportHostReference : Type 0 where
  imported existing : Text → ImportHostReference

pub record ImportBatchHost : Type 0 where
  pub source_id : Text
  pub draft : HostDraft

pub record ImportBatchTunnel : Type 0 where
  pub host : ImportHostReference
  pub draft : TunnelDraft

pub record ImportBatchCommand : Type 0 where
  pub host : Option ImportHostReference
  pub draft : CommandPresetDraft

pub record ImportBatch : Type 0 where
  pub source_hash : Text
  pub hosts : List ImportBatchHost
  pub tunnels : List ImportBatchTunnel
  pub commands : List ImportBatchCommand
  pub settings : Option SettingsPatch

pub record ImportBatchResult : Type 0 where
  pub duplicate : Bool
  pub imported_hosts : ℕ
  pub imported_tunnels : ℕ
  pub imported_commands : ℕ
  pub settings_imported : Bool

unfoldable pub resolve_import_host : ImportHostReference → Map Text → List Text → AppResult Text
resolve_import_host (imported source_id) imported_host_ids existing_host_ids =
    ok_or (get source_id imported_host_ids) validation
resolve_import_host (existing host_id) imported_host_ids existing_host_ids =
    if contains existing_host_ids host_id then ok host_id else err validation

-- The two loops that end an import of hosts.
unfoldable pub normalize_each : List Text → List HostProfile → AppResult (List HostProfile)
normalize_each [] hosts = ok hosts
normalize_each (id ∷ ids) hosts = normalize_proxy_jump_for hosts id >>= normalize_each ids

unfoldable pub validate_roles : List Text → List HostProfile → AppResult (Unit {0})
validate_roles [] hosts = ok tt
validate_roles (id ∷ ids) hosts = validate_proxy_jump_role hosts id >> validate_roles ids hosts

unfoldable pub settle_jumps : List Text → PersistedState → AppResult PersistedState
settle_jumps ids s = do
  hosts ← normalize_each ids s.hosts
  validate_roles ids hosts
  ok (record s { hosts = hosts })

-- The imported profiles, read back from the list.
unfoldable pub profiles_of : List Text → List HostProfile → AppResult (List HostProfile)
profiles_of [] hosts = ok []
profiles_of (id ∷ ids) hosts = do
  profile ← ok_or (find_host id hosts) panic
  profiles ← profiles_of ids hosts
  ok (profile ∷ profiles)

unfoldable pub resolve_scope :
    Option ImportHostReference → Map Text → List Text → AppResult (Option Text)
resolve_scope none ids existing_ids = ok none
resolve_scope (some reference) ids existing_ids = do
  id ← resolve_import_host reference ids existing_ids
  ok (some id)

abbrev pub patch_settings : Option SettingsPatch → PersistedState → AppResult PersistedState
patch_settings none s = ok s
patch_settings (some patch) s = do
  settings ← apply_settings_patch s.settings patch
  ok (record s { settings = settings })

abbrev pub is_empty_batch : ImportBatch → Bool
is_empty_batch batch =
    is_empty batch.hosts
    && is_empty batch.tunnels
    && is_empty batch.commands
    && is_none batch.settings

abbrev pub duplicate_result : ImportBatchResult
duplicate_result = record {
  duplicate = true;
  imported_hosts = 0;
  imported_tunnels = 0;
  imported_commands = 0;
  settings_imported = false;
}

abbrev pub batch_result : ImportBatch → ImportBatchResult
batch_result batch = record {
  duplicate = false;
  imported_hosts = length batch.hosts;
  imported_tunnels = length batch.tunnels;
  imported_commands = length batch.commands;
  settings_imported = is_some batch.settings;
}

module _ (clock : ℕ → ℕ) (fresh : ℕ → Text) where
  -- The loop of `import_hosts`; its value is the new state and the ids it pushed.
  unfoldable pub add_hosts :
      ℕ → List HostDraft → PersistedState → AppResult (PersistedState × List Text)
  add_hosts n [] s = ok (s, [])
  add_hosts n (draft ∷ drafts) s = do
    fail_if (is_some draft.id) validation
    applied ← apply_host_draft s draft (clock n) (fresh n)
    rest ← add_hosts (suc n) drafts applied.0
    ok (rest.0, applied.1.id ∷ rest.1)

  -- The first loop of `import_batch`, which also maps source ids to ids.
  unfoldable pub add_batch_hosts :
      ℕ → List ImportBatchHost → Map Text → PersistedState → AppResult (PersistedState × Map Text)
  add_batch_hosts n [] ids s = ok (s, ids)
  add_batch_hosts n (planned ∷ hosts) ids s = do
    validate_import_source_id planned.source_id
    fail_if (is_some (get planned.source_id ids)) validation
    fail_if (is_some planned.draft.id) validation
    applied ← apply_host_draft s planned.draft (clock n) (fresh n)
    add_batch_hosts (suc n) hosts (insert planned.source_id applied.1.id ids) applied.0

  unfoldable pub add_batch_tunnels :
      ℕ → List ImportBatchTunnel → Map Text → List Text → PersistedState → AppResult PersistedState
  add_batch_tunnels n [] ids existing_ids s = ok s
  add_batch_tunnels n (planned ∷ tunnels) ids existing_ids s = do
    fail_if (is_some planned.draft.id) validation
    host_id ← resolve_import_host planned.host ids existing_ids
    applied ←
        apply_tunnel_draft s (record (planned.draft) { host_id = host_id }) (clock n) (fresh n)
    add_batch_tunnels (suc n) tunnels ids existing_ids applied.0

  unfoldable pub add_batch_commands :
      ℕ → List ImportBatchCommand → Map Text → List Text → PersistedState → AppResult PersistedState
  add_batch_commands n [] ids existing_ids s = ok s
  add_batch_commands n (planned ∷ commands) ids existing_ids s = do
    fail_if (is_some planned.draft.id) validation
    host_id ← resolve_scope planned.host ids existing_ids
    applied ←
        apply_command_draft s (record (planned.draft) { host_id = host_id }) (clock n) (fresh n)
    add_batch_commands (suc n) commands ids existing_ids applied.0

  -- The state that a batch which is neither empty nor a duplicate makes. `HashMap::values` gives
  -- the ids of the imported hosts in some order; here it is the order of the batch.
  unfoldable pub batch_state : ImportBatch → PersistedState → AppResult PersistedState
  batch_state batch s = do
    let existing_ids = map (λ host. host.id) s.hosts
    added ← add_batch_hosts 0 batch.hosts [] s
    settled ← settle_jumps (map (λ entry. entry.1) added.1) added.0
    let hosts = length batch.hosts
    tunneled ← add_batch_tunnels hosts batch.tunnels added.1 existing_ids settled
    commanded ←
        add_batch_commands (hosts + length batch.tunnels) batch.commands added.1 existing_ids
          tunneled
    patched ← patch_settings batch.settings commanded
    ok (record patched {
      imported_source_hashes =
          patched.imported_source_hashes ++ to_ascii_lowercase batch.source_hash ∷ [];
    })

  module _ (disk : PersistedState → AppResult (Unit {0})) where
    unfoldable pub import_hosts :
        List HostDraft → AppRepository → AppRepository × AppResult (List HostProfile)
    import_hosts [] repo = (repo, ok [])
    import_hosts (first ∷ others) repo = commit disk repo (do
      fail_if (not (is_empty repo.deleting_hosts)) state
      added ← add_hosts 0 (first ∷ others) repo.stored
      settled ← settle_jumps added.1 added.0
      profiles ← profiles_of added.1 settled.hosts
      persisted disk (settled, profiles))

    unfoldable pub import_batch :
        ImportBatch → AppRepository → AppRepository × AppResult ImportBatchResult
    import_batch batch repo = commit disk repo (do
      validate_import_hash batch.source_hash
      fail_if (not (is_empty repo.deleting_hosts)) state
      if has_import repo (to_ascii_lowercase batch.source_hash)
          then ok (repo.stored, duplicate_result)
          else (do
            fail_if (is_empty_batch batch) validation
            s ← batch_state batch repo.stored
            persisted disk (s, batch_result batch)))
