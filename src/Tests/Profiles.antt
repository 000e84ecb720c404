-- ===== src/Tests/Profiles.antt =====
-- Concrete packets of the EXN profile.
use exn_gs.Common.{◌≡◌, arith, true, [], ◌∷◌, some, take}
use exn_gs.SpacePacket.{build_pus_c_tc, parse_pus_c_tc, no_tc_info}
use exn_gs.SpacePacket.RoundTrip.{parse_pus_c_tc-build_pus_c_tc}
use exn_gs.Tests.Recorder.{recorder, recorder-Documented}

parse_pus_c_tc-build_pus_c_tc_example :
    let b = build_pus_c_tc recorder 256 7 3 128 16 9 (1 ∷ 2 ∷ []) in
    let r = parse_pus_c_tc recorder 5 b.packet (some no_tc_info) in
    ((b.built ≡ true) × (b.error ≡ []))
    × ((r.parsed ≡ true) × (r.error ≡ []))
    × ((r.meta.ver ≡ 0) × (r.meta.apid ≡ 256) × (r.meta.seqf ≡ 3) × (r.meta.seq ≡ 7))
    × ((r.meta.svc ≡ 3) × (r.meta.ssvc ≡ 128) × (r.meta.ts_ns ≡ 5))
    × (r.application_data ≡ 1 ∷ 2 ∷ [])
    × (r.tc_info
        ≡ some (record { source_id = 16; acknowledgement_flags = 9; request_id = take 4 b.packet }))
parse_pus_c_tc-build_pus_c_tc_example =
    parse_pus_c_tc-build_pus_c_tc recorder recorder-Documented 5 256 7 3 128 16 9 (1 ∷ 2 ∷ [])
      no_tc_info (omega arith) (omega arith) (omega arith) (omega arith)
