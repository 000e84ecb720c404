-- ===== src/Simulator/Answers.antt =====
-- ui/src/ui_app.cpp and sim/src/main.cpp: the interface's housekeeping request, as the simulator takes
-- and answers it.
use exn_gs.Common.{
  ℕ, ◌+◌, ◌%◌, ◌^◌, ◌≤◌, ◌<◌, ◌≡◌, ◌∙◌, refl, arith, List, [], ◌∷◌, some, take, length, ap, ◌*◌,
}
use exn_gs.Mission.{apid_obc, svc_hk, sub_sys_hk_request, pusid_gs, ack_read_default}
use exn_gs.SpacePacket.Library.{Pack}
use exn_gs.SpacePacket.{exn_tm_tailoring, no_tc_info, build_pus_c_tc, parse_pus_c_tc}
use exn_gs.SpacePacket.Laws.{IsWhole, Documented, DocumentedTm}
use exn_gs.SpacePacket.TmPackets.{build_pus_c_tm_lem}
use exn_gs.Simulator.Reports.{make_system_hk_report_lem}
use exn_gs.SpacePacket.RoundTrip.{parse_pus_c_tc-build_pus_c_tc}
use exn_gs.Simulator.{
  TcMessage, accept_tc, dispatch, supported_request, make_system_hk_report, unless_empty, build_tm,
}
use exn_gs.Simulator.Dispatch.{numbered, dispatch-owed}
use exn_gs.Ui.{UiApp, sends_packet, send_system_hk}

-- The packet of `send_system_hk`.
abbrev pub hk_packet : Pack → ℕ → List ℕ
hk_packet pack seq =
    (build_pus_c_tc pack apid_obc seq svc_hk sub_sys_hk_request pusid_gs ack_read_default []).packet

module _ (pack : Pack) (documented : Documented pack) where
  -- Where CCSDSPack keeps what its setters are given and reads a packet back as it was written, and
  -- the two sequence counts have 14 bits: the request is sent, the simulator takes it with the
  -- packet's first four bytes as request id, and its dispatcher answers with two reports, the
  -- acceptance of that request id and the system housekeeping report, under the next two sequence
  -- numbers; one that cannot be built is left out.
  pub send_system_hk-dispatch :
      (clock : ℕ → ℕ) (u : UiApp) (now tm_seq : ℕ)
      → u.tc_sequence < 2 ^ 14
      → tm_seq < 2 ^ 14
      → pack.tc_header_size + 2 ≤ 2 ^ 16
      → let packet = hk_packet pack u.tc_sequence in
        (tc : TcMessage) × ((send_system_hk pack u).1 ≡ sends_packet packet ∷ [])
        × (accept_tc pack now packet ≡ some tc)
        × (tc.pus.request_id ≡ take 4 packet)
        × (dispatch pack clock tm_seq tc ≡ (
          (tm_seq + 2) % 2 ^ 14,
          numbered pack clock 16 tm_seq (
              record { svc = 1; ssvc = 1; app = take 4 packet }
              ∷ record { svc = 3; ssvc = 129; app = make_system_hk_report tc }
              ∷ []),
        ))
  unfolding send_system_hk accept_tc supported_request
  send_system_hk-dispatch clock u now tm_seq small short room =
      let b =
        build_pus_c_tc pack apid_obc u.tc_sequence svc_hk sub_sys_hk_request pusid_gs
          ack_read_default [] in
      let r = parse_pus_c_tc pack now b.packet (some no_tc_info) in
      let ((built, _), (parsed, _), (_, addressed, _, _), (svc, ssvc, _), data_same, info) =
        parse_pus_c_tc-build_pus_c_tc pack documented now apid_obc u.tc_sequence svc_hk
          sub_sys_hk_request pusid_gs ack_read_default [] no_tc_info (omega arith) small
          (omega arith) (omega arith) in
      let tc : TcMessage = record {
        meta = r.meta;
        pus = record {
          source_id = pusid_gs;
          acknowledgement_flags = ack_read_default;
          request_id = take 4 b.packet;
        };
        application_data = r.application_data;
      } in
      (
        tc,
        rw built refl,
        rw (parsed, addressed, info) refl,
        refl,
        dispatch-owed pack clock tm_seq tc short ∙ rw (svc, ssvc) refl,
      )

module _ (pack : Pack) (documented : Documented pack) (reports : DocumentedTm pack documented) where
  unless_empty-whole : (bytes : List ℕ) → IsWhole pack bytes → unless_empty bytes ≡ bytes ∷ []
  unless_empty-whole [] whole = absurd (omega (arith, whole.1))
  unless_empty-whole (b ∷ bytes) whole = refl

  build_tm-IsWhole :
      (now seq service subservice : ℕ) (app : List ℕ)
      → seq < 2 ^ 14
      → service < 2 ^ 8
      → subservice < 2 ^ 8
      → now < 2 ^ 32 * 1000000000
      → length app + pack.tc_header_size + 2 ≤ 2 ^ 16
      → length app + pack.tm_header_size exn_tm_tailoring + 2 ≤ 2 ^ 16
      → IsWhole pack (build_tm pack now apid_obc seq service subservice 16 app)
  unfolding build_tm
  build_tm-IsWhole now seq service subservice app a b c d room tm_room =
      let (bytes, built, whole) =
        build_pus_c_tm_lem pack documented reports now apid_obc seq service subservice seq 16 0 app
          (omega arith) a b c (omega arith) (omega arith) (omega arith) d room tm_room in
      rw built whole

  -- The acceptance and the system housekeeping report to a request with a request id of four bytes are
  -- built and sent.
  pub numbered-two :
      (clock : ℕ → ℕ) (tm_seq : ℕ) (id : List ℕ) (tc : TcMessage)
      → length id ≡ 4
      → tc.pus.request_id ≡ id
      → tm_seq + 1 < 2 ^ 14
      → ((n : ℕ) → clock n < 2 ^ 32 * 1000000000)
      → pack.tc_header_size + 86 ≤ 2 ^ 16
      → pack.tm_header_size exn_tm_tailoring + 86 ≤ 2 ^ 16
      → let accepted = build_tm pack (clock tm_seq) apid_obc tm_seq 1 1 16 id in
        let answer =
          build_tm pack
            (clock (tm_seq + 1))
            apid_obc
            (tm_seq + 1)
            3
            129
            16
            (make_system_hk_report tc) in
        IsWhole pack accepted
        × IsWhole pack answer
        × (numbered pack clock 16 tm_seq (
              record { svc = 1; ssvc = 1; app = id }
              ∷ record { svc = 3; ssvc = 129; app = make_system_hk_report tc }
              ∷ [])
            ≡ accepted ∷ answer ∷ [])
  numbered-two clock tm_seq id tc four same small early room tm_room =
      let long = (make_system_hk_report_lem tc (ap length same ∙ four)).0 in
      let first =
        build_tm-IsWhole (clock tm_seq) tm_seq 1 1 id (omega arith) (omega arith) (omega arith)
          (early tm_seq) (omega (arith, four)) (omega (arith, four)) in
      let second =
        build_tm-IsWhole (clock (tm_seq + 1)) (tm_seq + 1) 3 129 (make_system_hk_report tc)
          (omega arith) (omega arith) (omega arith) (early (tm_seq + 1)) (omega (arith, long))
          (omega (arith, long)) in
      (first, second, rw (unless_empty-whole _ first, unless_empty-whole _ second) refl)
