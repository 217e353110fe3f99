-- ===== src/Room/Errors.antt =====
-- crates/r2n-room/src/lib.rs, RoomError.
use Prim.Native.String.{String}

pub data RoomError : Type 0 where
  invalid_cidr : String → RoomError
  address_pool_exhausted : RoomError
  invalid_address_pool : String → RoomError
