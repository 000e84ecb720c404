-- ===== src/Simulator.antt =====
-- sim/src/main.cpp: the on-board computer's simulator. Telecommands that the framer reports pass
-- `accept_tc` to a ring queue; the dispatcher takes one at a time and queues its reports.
-- `exn_be_put_u16` and its like: shared/include/exn/shared/exn_interfaces.h.
pub mod Ring
pub mod Dispatch
pub mod Wrap
pub mod Reports
pub mod Sessions
pub mod Structures
pub mod Answers
pub mod Trace
pub mod Startup
pub mod Words
use exn_gs.Common.{
  ℕ, ◌+◌, ◌/◌, ◌%◌, ◌^◌, Bool, true, false, ◌&&◌, ◌||◌, not, List, [], ◌∷◌, ◌++◌, Option, none,
  some, length, take, drop, replicate, ◌==◌, if◌then◌else◌,
}
use exn_gs.Mission.{apid_obc, svc_verify, svc_hk}
use exn_gs.Protocol.{PacketMeta}
use exn_gs.Protocol.Bytes.{byte_at}
use exn_gs.SpacePacket.Library.{Pack}
use exn_gs.SpacePacket.{PusCTcInfo, no_tc_info, parse_pus_c_tc, build_pus_c_tm}

pub record TcMessage : Type 0 where
  pub meta : PacketMeta
  pub pus : PusCTcInfo
  pub application_data : List ℕ

-- `exn_be_put_u16` and its like, as the bytes that they write.
unfoldable pub be_put_u16 : ℕ → List ℕ
be_put_u16 v = byte_at v 8 ∷ byte_at v 0 ∷ []

unfoldable pub be_put_u32 : ℕ → List ℕ
be_put_u32 v = byte_at v 24 ∷ byte_at v 16 ∷ byte_at v 8 ∷ byte_at v 0 ∷ []

unfoldable pub be_put_u64 : ℕ → List ℕ
unfolding be_put_u32
be_put_u64 v = be_put_u32 (v / 2 ^ 32) ++ be_put_u32 (v % 2 ^ 32)

-- `std::copy` over the bytes of `app` from `offset` on.
abbrev pub put : ℕ → List ℕ → List ℕ → List ℕ
put offset bytes app = take offset app ++ bytes ++ drop (offset + length bytes) app

unfoldable pub make_hk_report : List ℕ
unfolding be_put_u16
make_hk_report = put 11 (0 ∷ []) (put 10 (2 ∷ []) (put 0 (be_put_u16 1) (replicate 32 0)))

unfoldable pub make_verification_success : TcMessage → List ℕ
make_verification_success tc = tc.pus.request_id

unfoldable pub make_verification_failure : TcMessage → ℕ → List ℕ
unfolding be_put_u16
make_verification_failure tc failure_code =
    put 6 (be_put_u16 0) (put 4 (be_put_u16 failure_code) (put 0 tc.pus.request_id (replicate 8 0)))

unfoldable pub supported_request : TcMessage → Bool
supported_request tc = tc.meta.svc == svc_hk && (tc.meta.ssvc == 27 || tc.meta.ssvc == 128)

-- The endpoint summary, with the age of a HEALTH sample that there is not.
unfoldable pub endpoint_summary : List ℕ
unfolding be_put_u16 be_put_u32 be_put_u64
endpoint_summary = put 29 (1 ∷ []) (
    put 21 (be_put_u64 0) (
      put 17 (be_put_u32 4294967295) (
        put 13 (be_put_u32 0) (
          put 12 (0 ∷ []) (
            put 10 (be_put_u16 0) (
              put 8 (be_put_u16 0) (
                put 2 (1 ∷ 2 ∷ 0 ∷ 0 ∷ 0 ∷ 0 ∷ [])
                  (put 0 (be_put_u16 apid_obc) (replicate 30 0)))))))))

unfoldable pub make_system_hk_report : TcMessage → List ℕ
unfolding make_hk_report endpoint_summary be_put_u16 be_put_u32
make_system_hk_report tc =
    let obc_hk = make_hk_report in
    let head = put 13 (1 ∷ []) (put 12 (0 ∷ []) (put 0 tc.pus.request_id (replicate 14 0))) in
    let structure =
      put 6 (be_put_u16 (length obc_hk % 2 ^ 16))
        (put 2 (be_put_u32 0) (put 0 (be_put_u16 1) (replicate (8 + length obc_hk) 0))) in
    head ++ endpoint_summary ++ put 8 obc_hk structure

-- `flags & mask` for the four acknowledgement flags, whose masks are 8, 4, 2 and 1.
abbrev pub has_flag : ℕ → ℕ → Bool
has_flag mask flags = not (flags / mask % 2 == 0)

-- A packet that was not built is not queued.
abbrev pub unless_empty : List ℕ → List (List ℕ)
unless_empty [] = []
unless_empty (b ∷ bytes) = (b ∷ bytes) ∷ []

module _ (pack : Pack) where
  -- The framer's callback: the telecommand that is pushed to the queue.
  unfoldable pub accept_tc : ℕ → List ℕ → Option TcMessage
  accept_tc now bytes =
      let p = parse_pus_c_tc pack now bytes (some no_tc_info) in
      if not p.parsed
      then none
      else if not (p.meta.apid == apid_obc)
      then none
      else some (record {
        meta = p.meta;
        pus = elim p.tc_info [ none ↦ no_tc_info | some info ↦ info ];
        application_data = p.application_data;
      })

  unfoldable pub build_tm : ℕ → ℕ → ℕ → ℕ → ℕ → ℕ → List ℕ → List ℕ
  build_tm now apid seq svc ssvc destination_id application_data =
      let b = build_pus_c_tm pack now apid seq svc ssvc seq destination_id 0 application_data in
      if b.built then b.packet else []

  -- `build_tm(APID_OBC, tm_seq++, ...)`, and the packet is queued unless it is empty. `clock` is the
  -- time at which the report with a given number is built.
  unfoldable pub report : (ℕ → ℕ) → ℕ → ℕ → ℕ → List ℕ → ℕ × List (List ℕ) → ℕ × List (List ℕ)
  report clock svc ssvc destination_id app (tm_seq, queued) = (
    (tm_seq + 1) % 2 ^ 16,
    queued ++ unless_empty (build_tm (clock tm_seq) apid_obc tm_seq svc ssvc destination_id app),
  )

  -- One round of `tc_dispatch_task`: the next `tm_seq`, and what is queued for transmission.
  unfoldable pub dispatch : (ℕ → ℕ) → ℕ → TcMessage → ℕ × List (List ℕ)
  dispatch clock tm_seq tc =
      let supported = supported_request tc in
      let flags = tc.pus.acknowledgement_flags in
      let source = tc.pus.source_id in
      let success = make_verification_success tc in
      let accepted =
        if has_flag 8 flags
        then report clock svc_verify (if supported then 1 else 2) source
            (if supported then success else make_verification_failure tc 1) (tm_seq, [])
        else (tm_seq, []) in
      let started =
        if has_flag 4 flags then report clock svc_verify 3 source success accepted else accepted in
      let replied =
        if tc.meta.svc == svc_hk && tc.meta.ssvc == 27
        then report clock svc_hk 25 source make_hk_report started
        else if tc.meta.svc == svc_hk && tc.meta.ssvc == 128
        then report clock svc_hk 129 source (make_system_hk_report tc) started
        else started in
      let completed =
        if has_flag 1 flags then report clock svc_verify 7 source success replied else replied in
      if not supported
      then (accepted.0 % 2 ^ 14, accepted.1)
      else (completed.0 % 2 ^ 14, completed.1)
