-- ===== src/Infrastructure/Events/Kinds.antt =====
-- The contracts and the declarations of events of src/infrastructure/blockchain/event-topics.ts.
use spawn_backend.Common.Decimal.{Text}

pub data EventContract : Type 0 where
  hook registry controller revenue_nft token pool_manager : EventContract

-- An event with the parameters of its declaration.
pub record EventEntry : Type 0 where
  pub contract : EventContract
  pub name : Text
  pub params : Text
