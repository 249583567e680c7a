-- ===== src/Server.antt =====
-- The server entity (src/domain/entities/server.py). Python's float is the parameter `Float`.
pub mod Hostname
pub mod Service
use ai_sre_platform_for_auto.Common.{ℕ, Text, Option, none, ℤ}

pub record Server (Float : Type 0) : Type 0 where
  pub id : Option ℕ
  pub hostname : Text
  pub ip_address : Text
  pub operating_system : Text
  pub cpu_cores : ℤ
  pub memory_gb : Float
  pub created_at : Option ℕ
  pub updated_at : Option ℕ

-- `Server.create`
unfoldable pub create : {Float : Type 0} → Text → Text → Text → ℤ → Float → Server Float
create hostname ip_address operating_system cpu_cores memory_gb = record {
  id = none;
  hostname = hostname;
  ip_address = ip_address;
  operating_system = operating_system;
  cpu_cores = cpu_cores;
  memory_gb = memory_gb;
  created_at = none;
  updated_at = none;
}
