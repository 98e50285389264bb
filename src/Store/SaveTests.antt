-- ===== src/Store/SaveTests.antt =====
-- Saved and deleted records of store.rs read back, on concrete drafts.
use remote_deck.Base.{
  Text, Option, if◌then◌else◌, ◌≡◌, refl, true, false, none, some, [], ◌∷◌, codes, ok, text_eq,
}
use remote_deck.Model.{HostDraft, HostProfile, TunnelProfile, interactive, local}
use remote_deck.Store.Proxies.{find_host, resolve_proxy_jump}
use remote_deck.Store.Repository.{tunnel, is_deleting, save_host, save_tunnel}
use remote_deck.Store.Jumps.{IsOneHop, save_host-IsOneHop}
use remote_deck.Store.Lookup.{save_tunnel-lookup}
use remote_deck.Store.Tests.{box, db_draft, disk, repo, repository}

abbrev db : TunnelProfile
db = record {
  schema_version = 2;
  id = codes "t2";
  host_id = codes "h1";
  name = codes "db";
  direction = local;
  bind_address = codes "127.0.0.1";
  source_port = 5432;
  target_host = codes "db";
  target_port = 5432;
  auto_start = false;
  auto_reconnect = true;
  health_check = none;
  created_at = 5;
  updated_at = 5;
}

save_tunnel-lookup_example :
    (db.id ≡ codes "t2")
    × (db.host_id ≡ codes "h1")
    × ((k : Text)
        → tunnel (save_tunnel disk db_draft 5 (codes "t2") repo).0 k
          ≡ (if text_eq db.id k then ok db else tunnel repo k))
    × ((save_tunnel disk db_draft 5 (codes "t2") repo).0.stored.hosts ≡ box ∷ [])
    × ((save_tunnel disk db_draft 5 (codes "t2") repo).0.stored.command_presets ≡ [])
unfolding repository
save_tunnel-lookup_example = save_tunnel-lookup disk db_draft 5 (codes "t2") repo db refl

-- A host behind the first one, which its draft names by alias.
abbrev pub gpu_draft : HostDraft
gpu_draft = record {
  id = none;
  alias = codes "gpu";
  hostname = codes "10.0.0.9";
  port = 22;
  username = codes "ann";
  auth_method = some interactive;
  identity_file = none;
  proxy_jump = some (codes "BOX");
  default_workspace = none;
  groups = [];
  advanced = none;
  monitor_enabled = none;
}

abbrev gpu : HostProfile
gpu = record box {
  id = codes "h2";
  alias = codes "gpu";
  hostname = codes "10.0.0.9";
  proxy_jump = some (codes "h1");
  created_at = 8;
  updated_at = 8;
}

save_host-IsOneHop_example :
    (find_host (codes "h2") (save_host disk gpu_draft 8 (codes "h2") repo).0.stored.hosts
      ≡ some gpu)
    × IsOneHop (save_host disk gpu_draft 8 (codes "h2") repo).0.stored.hosts gpu
    × ((jump : Option HostProfile) × (resolve_proxy_jump
            (save_host disk gpu_draft 8 (codes "h2") repo).0.stored.hosts
            gpu
          ≡ ok jump)
        × (is_deleting repo jump ≡ false))
unfolding repository
save_host-IsOneHop_example = save_host-IsOneHop disk gpu_draft 8 (codes "h2") repo gpu refl
