-- ===== src/Inventory/Service/Tests.antt =====
-- `InventoryService` over a table in memory in which an asset has its server's key.
use ai_sre_platform_for_auto.Common.{ℕ, none, some, [], ◌∷◌, refl, lookup}
use ai_sre_platform_for_auto.Errors.{ok}
use ai_sre_platform_for_auto.Repository.Memory.{memory, read, memory-IsRepository}
use ai_sre_platform_for_auto.Inventory.{Inventory}
use ai_sre_platform_for_auto.Inventory.Service.{Ports, DiscoveryResult, MetadataPatch, to_inventory}
use ai_sre_platform_for_auto.Inventory.Service.Metadata.{IsDict}
use ai_sre_platform_for_auto.Inventory.Service.Upsert.{inventory_key, Works}
use ai_sre_platform_for_auto.Common.{Dict, List, lit}
use ai_sre_platform_for_auto.Common.{Option, Text, pos, text_eq}

abbrev Table : Type 0
Table = List (Option (Inventory ℕ))

abbrev found : DiscoveryResult ℕ
found = record {
  server_id = 0;
  hostname = lit "web-1";
  operating_system = lit "linux";
  kernel_version = lit "6.1";
  architecture = lit "x86_64";
  uptime = lit "1 day";
  timezone = lit "UTC";
  cpu = record {
    model = lit "cpu";
    cores = pos 4;
    sockets = pos 1;
    threads_per_core = pos 1;
    architecture = lit "x86_64";
  };
  memory = record {
    total_mb = 1;
    used_mb = 1;
    free_mb = 0;
    shared_mb = 0;
    buff_cache_mb = 0;
    available_mb = 0;
  };
  disks = [];
  network_interfaces = [];
  discovered_at = 7;
}

abbrev ports : Ports Table ℕ
ports = record {
  inventory_repository = memory inventory_key (λ s. s) (λ s l. l);
  get_by_server_id = λ n s. (ok (read inventory_key (λ s. s) (λ s l. l) s n), s);
  search = λ q s. (ok [], s);
  discover_server = λ n s. (ok found, s);
}

abbrev works : Works ports
works = record {
  stored = read inventory_key (λ s. s) (λ s l. l);
  by_server = read inventory_key (λ s. s) (λ s l. l);
  saves = memory-IsRepository inventory_key (λ s. s) (λ s l. l) (λ s l. refl) (λ e n. refl);
  reads_by_server = λ s n. refl;
  located = λ s n a e. (n, e);
}

abbrev patch : MetadataPatch
patch = record {
  environment = some (lit "production");
  owner = none;
  project = none;
  business_unit = none;
  region = none;
  datacenter = none;
  role = some (lit "web");
  criticality = none;
  tags = some ((lit "tier", lit "1") ∷ []);
}

abbrev tables : Table
tables = some (to_inventory found) ∷ []

abbrev old_tags : Dict Text
old_tags = (lit "tier", lit "2") ∷ []

abbrev new_tags : Dict Text
new_tags = (lit "tier", lit "1") ∷ (lit "team", lit "sre") ∷ []

new_tags-IsDict : IsDict new_tags
unfolding lookup lit text_eq
new_tags-IsDict = (refl, (refl, tt))
