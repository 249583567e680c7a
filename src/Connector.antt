-- ===== src/Connector.antt =====
-- Connectors to remote hosts (src/domain/interfaces/connectors.py).
pub mod Ssh
pub mod Hostinger
pub mod Registry
use ai_sre_platform_for_auto.Common.{Text, Option, Bool}
use ai_sre_platform_for_auto.Inventory.{ConnectorType}
use ai_sre_platform_for_auto.Effects.{Exec}

-- `IConnector` over the world `W`, for calls that return.
pub record Connector (W Float : Type 0) : Type 0 where
  pub connector_type : ConnectorType
  pub is_connected : W → Bool
  pub connect : Exec W (Unit {0})
  pub disconnect : Exec W (Unit {0})
  pub execute : Text → Option Float → Exec W Text
  pub upload_file : Text → Text → Exec W (Unit {0})
  pub download_file : Text → Text → Exec W (Unit {0})
