-- ===== src/Store/ImportTests.antt =====
-- An import of store.rs on a concrete batch, and the theorem on its repetition applied to it.
use remote_deck.Base.{
  ℕ, ◌+◌, ◌≡◌, refl, true, false, some, [], ◌∷◌, ◌++◌, Text, codes, length, is_ascii_hexdigit,
  map_operations, ok,
}
use remote_deck.Store.Validate.{validate_import_hash, validate_import_source_id}
use remote_deck.Store.Import.{
  ImportBatch, imported, ImportBatchResult, duplicate_result, import_batch, batch_state,
  add_batch_hosts, add_batch_tunnels, add_batch_commands, settle_jumps, normalize_each,
  validate_roles, resolve_import_host,
}
use remote_deck.Store.Repository.{has_import}
use remote_deck.Store.Duplicates.{import_batch-duplicate}
use remote_deck.Store.SaveTests.{gpu_draft}
use remote_deck.Store.Tests.{repository, repo, disk, db_draft, bigger_font}

imports : Unit {0}
unfolding repository import_batch batch_state add_batch_hosts add_batch_tunnels add_batch_commands
    settle_jumps normalize_each validate_roles resolve_import_host has_import validate_import_hash
    validate_import_source_id is_ascii_hexdigit map_operations
imports = tt

-- A host behind the stored one, a tunnel on it and a setting.
abbrev batch : ImportBatch
batch = record {
  source_hash = codes "0123456789ABCDEF0123456789abcdef0123456789abcdef0123456789abcdef";
  hosts = record { source_id = codes "lab"; draft = gpu_draft } ∷ [];
  tunnels = record { host = imported (codes "lab"); draft = db_draft } ∷ [];
  commands = [];
  settings = some bigger_font;
}

abbrev clock : ℕ → ℕ
clock n = 10 + n

abbrev fresh : ℕ → Text
fresh n = codes "i" ++ (48 + n) ∷ []

abbrev report : ImportBatchResult
report = record {
  duplicate = false;
  imported_hosts = 1;
  imported_tunnels = 1;
  imported_commands = 0;
  settings_imported = true;
}

batch_imported : (import_batch clock fresh disk batch repo).1 ≡ ok report
unfolding imports
batch_imported = refl

two_hosts : length (import_batch clock fresh disk batch repo).0.stored.hosts ≡ 2
unfolding imports
two_hosts = refl

import_batch-duplicate_example :
    import_batch clock fresh disk batch (import_batch clock fresh disk batch repo).0
    ≡ ((import_batch clock fresh disk batch repo).0, ok duplicate_result)
import_batch-duplicate_example =
    import_batch-duplicate clock clock fresh fresh disk disk batch repo report batch_imported
