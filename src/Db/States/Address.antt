-- ===== src/Db/States/Address.antt =====
-- backend/src/db.rs: `AddressState`, of an address in the pool.
use shuestand.Prelude.{String, Bool, true, false}

pub data AddressState : Type 0 where
  available allocated retired : AddressState

unfoldable pub as_str : AddressState → String
as_str available = "available"
as_str allocated = "allocated"
as_str retired = "retired"

abbrev pub is_available : AddressState → Bool
is_available available = true
is_available _ = false
