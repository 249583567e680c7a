-- ===== src/Inventory/Service/Upsert.antt =====
-- What `InventoryService` stores, over a working repository.
use ai_sre_platform_for_auto.Common.{ℕ, some, ◌++◌, false, ◌==◌}
use ai_sre_platform_for_auto.Errors.{Result, ok}
use ai_sre_platform_for_auto.Repository.{Keyed, IsRepository}
use ai_sre_platform_for_auto.Inventory.{Inventory}
use ai_sre_platform_for_auto.Inventory.Service.{Ports}
use ai_sre_platform_for_auto.Common.{Option, Text, ◌≡◌}
use ai_sre_platform_for_auto.Common.{lit}
use ai_sre_platform_for_auto.Common.{show}

abbrev pub inventory_key : {Float : Type 0} → Keyed (Inventory Float)
inventory_key = record { id_of = λ e. e.id; with_id = λ e n. record e { id = some n } }

-- What `InventoryService` relies on in its repository while the database works.
pub record Works {S Float : Type 0} (ports : Ports S Float) : Type 0 where
  pub stored : S → ℕ → Option (Inventory Float)
  pub by_server : S → ℕ → Option (Inventory Float)
  pub saves : IsRepository inventory_key ports.inventory_repository stored
  pub reads_by_server : (s : S) (n : ℕ) → ports.get_by_server_id n s ≡ (ok (by_server s n), s)
  pub located :
      (s : S) (n : ℕ) (a : Inventory Float)
      → by_server s n ≡ some a
      → (key : ℕ) × (stored s key ≡ some a)

module _ {S Float : Type 0} (ports : Ports S Float) (works : Works ports) where
  -- `answer` is `asset`, now stored under `key`, and the other keys keep what they had in `s`.
  abbrev pub Stores : S → ℕ → Inventory Float → Result (Inventory Float) × S → Type 0
  Stores s key asset answer =
      (answer.0 ≡ ok asset)
      × (works.stored answer.1 key ≡ some asset)
      × ((m : ℕ) → (m == key) ≡ false → works.stored answer.1 m ≡ works.stored s m)

  unknown_asset : ℕ → Text
  unknown_asset n = lit "Inventory asset with ID " ++ (show n ++ lit " not found.")
