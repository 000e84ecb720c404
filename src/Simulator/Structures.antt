-- ===== src/Simulator/Structures.antt =====
-- sim/src/main.cpp: the reports as a receiver reads them, by the structures of
-- shared/include/exn/shared/exn_interfaces.h.
use exn_gs.Common.{◌≡◌, refl, [], ◌∷◌, some, codes, length, drop}
use exn_gs.Mission.Layouts.{field, get_be, from_be, get_all, size_of}
use exn_gs.Mission.Structures.{
  system_hk_report_prefix_layout, system_hk_endpoint_prefix_layout,
  system_hk_structure_prefix_layout, hk_report_prefix_layout,
}
use exn_gs.Mission.Fields.{
  names, apid, supervision_state, endpoint_state, recovery_state, recovery_reason, recovery_action,
  system_hk_status, hk_structure, time_state,
}
use exn_gs.Simulator.{
  TcMessage, make_hk_report, make_system_hk_report, endpoint_summary, be_put_u16, be_put_u32,
  be_put_u64,
}
use exn_gs.Simulator.Reports.{four_bytes}

-- The system housekeeping report, read structure by structure and with the names of the header: to a
-- telecommand whose request id has four bytes, the prefix holds the request id, the time 0, the status
-- 0 (EXN_SYSTEM_HK_OK) and one endpoint; the endpoint's prefix the APID 256 (APID_OBC), supervision 1
-- (EXN_SUPERVISION_OK), state 2 (EXN_STATE_READY), no recovery, no reason and no action, a heartbeat
-- age of 0, a health age of 2 ^ 32 - 1 (no sample) and one structure; the structure's prefix the id 1,
-- the age 0 and the length 32; and behind them stands the heartbeat report, which begins with the id 1
-- (EXN_HK_HEARTBEAT), the time 0, the state EXN_STATE_READY and the time state EXN_TIME_UNSYNCED. Each
-- structure begins where the one before ends.
pub make_system_hk_report-get_all :
    (tc : TcMessage)
    → length tc.pus.request_id ≡ 4
    → let app = make_system_hk_report tc in
      let endpoint = drop (size_of system_hk_report_prefix_layout) app in
      let structure = drop (size_of system_hk_endpoint_prefix_layout) endpoint in
      let block = drop (size_of system_hk_structure_prefix_layout) structure in
      (get_all system_hk_report_prefix_layout app ≡ get_be 4 tc.pus.request_id ∷ 0 ∷ 0 ∷ 1 ∷ [])
      × (get_all system_hk_endpoint_prefix_layout endpoint
          ≡ 256 ∷ 1 ∷ 2 ∷ 0 ∷ 0 ∷ 0 ∷ 0 ∷ 0 ∷ 0 ∷ 0 ∷ 0 ∷ 4294967295 ∷ 0 ∷ 1 ∷ [])
      × (get_all system_hk_structure_prefix_layout structure ≡ 1 ∷ 0 ∷ 32 ∷ [])
      × (block ≡ make_hk_report)
      × (get_all hk_report_prefix_layout block ≡ 1 ∷ 0 ∷ [])
      × (names (system_hk_status ∷ []) (drop 2 (get_all system_hk_report_prefix_layout app))
          ≡ some (codes "EXN_SYSTEM_HK_OK") ∷ [])
      × (names
            (apid ∷ supervision_state ∷ endpoint_state ∷ recovery_state ∷ recovery_reason
              ∷ recovery_action ∷ [])
            (get_all system_hk_endpoint_prefix_layout endpoint)
          ≡ some (codes "APID_OBC")
            ∷ some (codes "EXN_SUPERVISION_OK")
            ∷ some (codes "EXN_STATE_READY")
            ∷ some (codes "EXN_RECOVERY_NONE")
            ∷ some (codes "EXN_RECOVERY_REASON_NONE")
            ∷ some (codes "EXN_RECOVERY_ACTION_NONE")
            ∷ [])
      × (names (hk_structure ∷ []) (get_all hk_report_prefix_layout block)
          ≡ some (codes "EXN_HK_HEARTBEAT") ∷ [])
      × (names (endpoint_state ∷ time_state ∷ []) (
            get_all
              (field (codes "state") 1 ∷ field (codes "time_state") 1 ∷ [])
              (drop (size_of hk_report_prefix_layout) block))
          ≡ some (codes "EXN_STATE_READY") ∷ some (codes "EXN_TIME_UNSYNCED") ∷ [])
unfolding make_system_hk_report endpoint_summary be_put_u16 be_put_u32 be_put_u64 make_hk_report
    get_be from_be
make_system_hk_report-get_all tc four =
    let (a, b, c, d, e) = four_bytes tc.pus.request_id four in
    rw e (refl, refl, refl, refl, refl, refl, refl, refl, refl)
