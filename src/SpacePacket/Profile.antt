-- ===== src/SpacePacket/Profile.antt =====
-- The outcomes of the packet builders and of the daemon's inspection.
use exn_gs.Common.{
  ℕ, ◌+◌, ◌*◌, ◌%◌, ◌^◌, ◌≤◌, ◌<◌, ◌≡◌, ◌≢◌, ◌⊎◌, ◌↔◌, arith, true, false, List, [], length, take,
}
use exn_gs.SpacePacket.Library.{ok, Primary, Pack}
use exn_gs.SpacePacket.{Built, build_pus_c_tc, build_pus_c_tm, decode_meta, current_exn_cuc}

-- A builder reports success with no message, or failure with a message and no packet.
abbrev pub IsClean : Built → Type 0
IsClean b =
    ((b.built ≡ true) × (b.error ≡ [])) ⊎ ((b.built ≡ false) × (b.error ≢ []) × (b.packet ≡ []))

-- The CUC time of a report: the fine field fits its two octets, the product before the division fits
-- a uint64, and the two fields are the time, rounded down to 1/65536 of a second.
pub current_exn_cuc_bounds :
    (now : ℕ)
    → ((current_exn_cuc now).fine < 65536)
      × (now % 1000000000 * 65536 < 2 ^ 64)
      × (((current_exn_cuc now).coarse * 65536 + (current_exn_cuc now).fine) * 1000000000
          ≤ now * 65536)
      × (now * 65536
          < ((current_exn_cuc now).coarse * 65536 + (current_exn_cuc now).fine + 1) * 1000000000)
unfolding current_exn_cuc
current_exn_cuc_bounds now = omega arith

module _ (pack : Pack) where
  open pack use {declared_size, parse_primary}

  -- `build_pus_c_tc` leaves no packet behind an error, and no error behind a packet.
  pub build_pus_c_tc-IsClean :
      (apid seq service subservice source ack : ℕ) (app : List ℕ)
      → IsClean (build_pus_c_tc pack apid seq service subservice source ack app)
  unfolding build_pus_c_tc
  build_pus_c_tc-IsClean apid seq service subservice source ack app = ground arith

  -- `build_pus_c_tm` leaves no packet behind an error, and no error behind a packet.
  pub build_pus_c_tm-IsClean :
      (now apid seq service subservice counter dest status : ℕ) (app : List ℕ)
      → IsClean (build_pus_c_tm pack now apid seq service subservice counter dest status app)
  unfolding build_pus_c_tm
  build_pus_c_tm-IsClean now apid seq service subservice counter dest status app = ground arith

  -- The inspection accepts a packet exactly when it is as long as its primary header declares and
  -- the primary header can be read; nothing behind that header matters.
  pub decode_meta_iff :
      (now : ℕ) (packet : List ℕ)
      → ((decode_meta pack now packet).decoded ≡ true) ↔ (
          (declared_size packet ≡ ok (length packet))
          × ((primary : Primary) × (parse_primary (take 6 packet) ≡ ok primary)))
  unfolding decode_meta
  decode_meta_iff now packet = (ground arith, ground arith)
