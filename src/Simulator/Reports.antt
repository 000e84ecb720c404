-- ===== src/Simulator/Reports.antt =====
-- The simulator's application data, and the telecommands that it takes.
use exn_gs.Common.{
  ◌⊎◌, ◌<◌, ℕ, length-take, ◌≡◌, refl, arith, true, List, [], ◌∷◌, ◌++◌, some, length, take, drop,
  replicate,
}
use exn_gs.SpacePacket.Library.{Pack}
use exn_gs.SpacePacket.{no_tc_info, parse_pus_c_tc}
use exn_gs.Simulator.{
  TcMessage, accept_tc, make_hk_report, make_system_hk_report, be_put_u16, be_put_u32, be_put_u64,
  endpoint_summary,
}

pub four_bytes :
    (id : List ℕ)
    → length id ≡ 4
    → (a : ℕ) × (b : ℕ) × (c : ℕ) × (d : ℕ) × (id ≡ a ∷ b ∷ c ∷ d ∷ [])
four_bytes (a ∷ b ∷ c ∷ d ∷ []) h = (a, b, c, d, refl)
four_bytes [] h = absurd (omega arith)
four_bytes (a ∷ []) h = absurd (omega arith)
four_bytes (a ∷ b ∷ []) h = absurd (omega arith)
four_bytes (a ∷ b ∷ c ∷ []) h = absurd (omega arith)
four_bytes (a ∷ b ∷ c ∷ d ∷ e ∷ rest) h = absurd (omega arith)

-- The system housekeeping report to a telecommand with a request id of four bytes is 84 bytes: the
-- request id, the snapshot's time 0, the system's status and one endpoint; the endpoint's APID 256
-- and one structure; the structure with the heartbeat's id 1, its length 32 and the heartbeat report.
pub make_system_hk_report_lem :
    (tc : TcMessage)
    → length tc.pus.request_id ≡ 4
    → let app = make_system_hk_report tc in
      (length app ≡ 84)
      × (take 14 app ≡ tc.pus.request_id ++ replicate 9 0 ++ 1 ∷ [])
      × (take 2 (drop 14 app) ≡ 1 ∷ 0 ∷ [])
      × (take 9 (drop 43 app) ≡ 1 ∷ 0 ∷ 1 ∷ 0 ∷ 0 ∷ 0 ∷ 0 ∷ 0 ∷ 32 ∷ [])
      × (drop 52 app ≡ make_hk_report)
unfolding make_system_hk_report endpoint_summary be_put_u16 be_put_u32 be_put_u64 make_hk_report
make_system_hk_report_lem tc four =
    let (a, b, c, d, e) = four_bytes tc.pus.request_id four in rw e (refl, refl, refl, refl, refl)

module _ (pack : Pack) where
  -- A telecommand that the simulator takes has been parsed without error and is addressed to APID
  -- 256; its request id, which the reports to it carry, has four bytes, those that its packet begins
  -- with if there are so many.
  pub accept_tc_lem :
      (now : ℕ) (bytes : List ℕ) (tc : TcMessage)
      → accept_tc pack now bytes ≡ some tc
      → ((parse_pus_c_tc pack now bytes (some no_tc_info)).parsed ≡ true)
        × (tc.meta.apid ≡ 256)
        × (length tc.pus.request_id ≡ 4)
        × ((length bytes < 4) ⊎ (tc.pus.request_id ≡ take 4 bytes))
  unfolding accept_tc parse_pus_c_tc
  accept_tc_lem now bytes tc e = ground (arith, length-take 4 bytes)
