-- ===== src/Inventory/Model.antt =====
-- The state of the inventory: the table `inventory_items` of prisma/schema.prisma, the hashes
-- `inv:<id>` of Redis, and the deltas that the service is called with.
use bookingqube_nest_backend.Prelude.{ℕ, String, Option, Bool, true, false}
pub use bookingqube_nest_backend.Prelude.Integers.{ℤ, pos, negsuc}

pub record InventoryDelta : Type 0 where
  pub inventory_item_id : String
  pub quantity : ℕ

pub data InventoryStatus : Type 0 where
  active paused sold_out : InventoryStatus

abbrev pub is_active : InventoryStatus → Bool
is_active active = true
is_active _ = false

pub data Mode : Type 0 where
  hold sold : Mode

-- A row; no `total_quantity` is unlimited stock.
pub record InventoryItem : Type 0 where
  pub total_quantity : Option ℕ
  pub sold_quantity : ℕ
  pub held_quantity : ℕ
  pub status : InventoryStatus

-- The number in the field `total` of a hash; unlimited stock is stored as -1.
pub record Hash : Type 0 where
  pub total : ℤ
  pub sold : ℕ
  pub held : ℕ
  pub status : InventoryStatus

abbrev pub Redis : Type 0
Redis = String → Option Hash

abbrev pub Items : Type 0
Items = String → Option InventoryItem

pub record Store : Type 0 where
  pub redis_ready : Bool
  pub redis : Redis
  pub items : Items
