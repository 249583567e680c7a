-- ===== src/Inventory/Service.antt =====
-- `InventoryService` (src/application/services/inventory_service.py), `DiscoveryResult`
-- (src/domain/dtos/discovery_result.py) and `DiscoveryMapper.to_inventory`
-- (src/infrastructure/persistence/mappers.py). The repository and the discovery service are
-- parameters, over a state `S` that they share.
pub mod Metadata
pub mod Upsert
mod Tests
use ai_sre_platform_for_auto.Common.{ℕ, zero, suc, none, some, [], ◌∷◌, ◌++◌, insert}
use ai_sre_platform_for_auto.Errors.{Result, ok, raise, not_found}
use ai_sre_platform_for_auto.Effects.{Exec, pure, throw, ◌>>=◌, ◌>>◌}
use ai_sre_platform_for_auto.Repository.{Repository}
use ai_sre_platform_for_auto.Inventory.{
  Inventory, InventoryMetadata, CpuInfo, MemoryInfo, DiskInfo, NetworkInterfaceInfo,
}
use ai_sre_platform_for_auto.Common.{Bool, Dict, List, Option, Text, pos, ℤ}
use ai_sre_platform_for_auto.Common.{lit, suc}
use ai_sre_platform_for_auto.Common.{negsuc, show}

pub record DiscoveryResult (Float : Type 0) : Type 0 where
  pub server_id : ℕ
  pub hostname : Text
  pub operating_system : Text
  pub kernel_version : Text
  pub architecture : Text
  pub uptime : Text
  pub timezone : Text
  pub cpu : CpuInfo
  pub memory : MemoryInfo Float
  pub disks : List (DiskInfo Float)
  pub network_interfaces : List NetworkInterfaceInfo
  pub discovered_at : ℕ

-- `InventoryMetadata()`
abbrev pub no_metadata : InventoryMetadata
no_metadata = record {
  environment = none;
  owner = none;
  project = none;
  business_unit = none;
  region = none;
  datacenter = none;
  role = none;
  criticality = none;
  connector_type = none;
  tags = [];
}

unfoldable pub to_inventory : {Float : Type 0} → DiscoveryResult Float → Inventory Float
to_inventory result = record {
  id = none;
  server_id = result.server_id;
  hostname = result.hostname;
  operating_system = result.operating_system;
  kernel_version = result.kernel_version;
  architecture = result.architecture;
  uptime = result.uptime;
  timezone = result.timezone;
  cpu = result.cpu;
  memory = result.memory;
  disks = result.disks;
  network_interfaces = result.network_interfaces;
  last_discovered_at = result.discovered_at;
  metadata = no_metadata;
  version = pos 1;
}

-- `n + 1`
abbrev pub increment : ℤ → ℤ
increment (pos n) = pos (suc n)
increment (negsuc zero) = pos 0
increment (negsuc (suc n)) = negsuc n

-- The arguments of `update_metadata`.
pub record MetadataPatch : Type 0 where
  pub environment : Option Text
  pub owner : Option Text
  pub project : Option Text
  pub business_unit : Option Text
  pub region : Option Text
  pub datacenter : Option Text
  pub role : Option Text
  pub criticality : Option Text
  pub tags : Option (Dict Text)

-- `if value is not None: field = value`
abbrev pub set_if : Option Text → Option Text → Option Text
set_if none field = field
set_if (some value) field = some value

-- `d.update(e)`
unfoldable pub update : Dict Text → Dict Text → Dict Text
update d [] = d
update d ((k, v) ∷ e) = update (insert k v d) e

abbrev pub update_if : Option (Dict Text) → Dict Text → Dict Text
update_if none d = d
update_if (some e) d = update d e

unfoldable pub patched : MetadataPatch → InventoryMetadata → InventoryMetadata
patched p m = record m {
  environment = set_if p.environment m.environment;
  owner = set_if p.owner m.owner;
  project = set_if p.project m.project;
  business_unit = set_if p.business_unit m.business_unit;
  region = set_if p.region m.region;
  datacenter = set_if p.datacenter m.datacenter;
  role = set_if p.role m.role;
  criticality = set_if p.criticality m.criticality;
  tags = update_if p.tags m.tags;
}

-- The constructor's arguments.
pub record Ports (S Float : Type 0) : Type 0 where
  pub inventory_repository : Repository S (Inventory Float)
  pub get_by_server_id : ℕ → Exec S (Option (Inventory Float))
  pub search : Text → Exec S (List (Inventory Float))
  pub discover_server : ℕ → Exec S (DiscoveryResult Float)

module _ {S Float : Type 0} (ports : Ports S Float) where
  -- the asset that `create_from_discovery` saves
  unfoldable pub promoted : DiscoveryResult Float → Option (Inventory Float) → Inventory Float
  unfolding to_inventory
  promoted result none = to_inventory result
  promoted result (some existing) = record (to_inventory result) {
    id = existing.id;
    metadata = existing.metadata;
    version = increment existing.version;
  }

  unfoldable pub create_from_discovery : ℕ → Exec S (Inventory Float)
  unfolding promoted
  create_from_discovery server_id = do
    discovery_result ← ports.discover_server server_id
    existing ← ports.get_by_server_id server_id
    ports.inventory_repository.save (promoted discovery_result existing)

  unfoldable pub or_missing : ℕ → Option (Inventory Float) → Exec S (Inventory Float)
  or_missing n none =
      throw not_found (lit "Inventory asset with ID " ++ (show n ++ lit " not found."))
  or_missing n (some asset) = pure asset

  unfoldable pub get_inventory_by_id : ℕ → Exec S (Inventory Float)
  unfolding or_missing
  get_inventory_by_id inventory_id = do
    asset ← ports.inventory_repository.get_by_id inventory_id
    or_missing inventory_id asset

  unfoldable pub get_all_inventory : ℕ → ℕ → Exec S (List (Inventory Float))
  get_all_inventory limit offset = ports.inventory_repository.get_all limit offset

  unfoldable pub search_inventory : Text → Exec S (List (Inventory Float))
  search_inventory query_str = ports.search query_str

  unfoldable pub update_metadata : ℕ → MetadataPatch → Exec S (Inventory Float)
  unfolding or_missing patched
  update_metadata inventory_id patch = do
    found ← ports.inventory_repository.get_by_id inventory_id
    asset ← or_missing inventory_id found
    ports.inventory_repository.save (record asset {
      metadata = patched patch asset.metadata;
      version = increment asset.version;
    })

  unfoldable pub delete_inventory : ℕ → Exec S Bool
  unfolding or_missing
  delete_inventory inventory_id = do
    found ← ports.inventory_repository.get_by_id inventory_id
    or_missing inventory_id found
    ports.inventory_repository.delete inventory_id
