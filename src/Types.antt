-- ===== src/Types.antt =====
-- shared/include/exn/shared/types.hpp.
use exn_gs.Common.{ℕ, List, Text}

pub data Direction : Type 0 where
  tc tm : Direction

pub data LinkState : Type 0 where
  disconnected connected error : LinkState

pub record PacketRecord : Type 0 where
  pub ts_ns : ℕ
  pub dir : Direction
  pub apid : ℕ
  pub seq : ℕ
  pub service : ℕ
  pub subservice : ℕ
  pub summary : Text
  pub raw : List ℕ
