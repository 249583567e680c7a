-- ===== src/Inventory.antt =====
-- The inventory of a server (src/domain/entities/inventory.py and discovery.py). Python's float is
-- the parameter `Float`.
pub mod Service
use ai_sre_platform_for_auto.Common.{ℕ}
use ai_sre_platform_for_auto.Common.{Option, Text}
use ai_sre_platform_for_auto.Common.{Dict, List, ℤ}

pub record CpuInfo : Type 0 where
  pub model : Text
  pub cores : ℤ
  pub sockets : ℤ
  pub threads_per_core : ℤ
  pub architecture : Text

pub record MemoryInfo (Float : Type 0) : Type 0 where
  pub total_mb : Float
  pub used_mb : Float
  pub free_mb : Float
  pub shared_mb : Float
  pub buff_cache_mb : Float
  pub available_mb : Float

pub record DiskInfo (Float : Type 0) : Type 0 where
  pub device : Text
  pub mount_point : Text
  pub fstype : Text
  pub total_gb : Float
  pub used_gb : Float
  pub free_gb : Float
  pub percentage : Float

pub record NetworkInterfaceInfo : Type 0 where
  pub name : Text
  pub ip_addresses : List Text
  pub mac_address : Option Text
  pub state : Text

pub data ConnectorType : Type 0 where
  ssh hostinger aws azure docker kubernetes : ConnectorType

pub record InventoryMetadata : Type 0 where
  pub environment : Option Text
  pub owner : Option Text
  pub project : Option Text
  pub business_unit : Option Text
  pub region : Option Text
  pub datacenter : Option Text
  pub role : Option Text
  pub criticality : Option Text
  pub connector_type : Option ConnectorType
  pub tags : Dict Text

pub record Inventory (Float : Type 0) : Type 0 where
  pub id : Option ℕ
  pub server_id : ℕ
  pub hostname : Text
  pub operating_system : Text
  pub kernel_version : Text
  pub architecture : Text
  pub uptime : Text
  pub timezone : Text
  pub cpu : CpuInfo
  pub memory : MemoryInfo Float
  pub disks : List (DiskInfo Float)
  pub network_interfaces : List NetworkInterfaceInfo
  pub last_discovered_at : ℕ
  pub metadata : InventoryMetadata
  pub version : ℤ
