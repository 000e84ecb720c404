-- ===== src/Tests/Simulation.antt =====
-- Concrete telecommands and queues of the simulator.
use exn_gs.Common.{
  take, ◌-◌, ◌≢◌, List, replicate, ℕ, ◌+◌, ◌%◌, ◌^◌, ◌≡◌, refl, arith, [], ◌∷◌, some, length, drop,
  ◌++◌, true, false, codes, to_string,
}
use exn_gs.Protocol.{no_meta}
use exn_gs.SpacePacket.{no_tc_info, build_pus_c_tm, parse_pus_c_tc}
use exn_gs.Simulator.{
  build_tm, TcMessage, dispatch, supported_request, accept_tc, make_system_hk_report,
  make_hk_report,
}
use exn_gs.Simulator.Sessions.{accepts, new_link}
use exn_gs.Simulator.Startup.{
  Platform, sim_main, prints_version, prints, does, starts_io_thread, creates_tc_task,
  creates_tm_task, starts_scheduler, runs,
}
use exn_gs.Simulator.Trace.{packet_trace, verdict, dispatch_trace}
use exn_gs.Simulator.Ring.{contents}
use exn_gs.Simulator.Ring.Threads.{Turn, pushing, popping, run, new_shared}
use exn_gs.Simulator.Ring.Threads.Sound.{IsRaceFree, run-new_shared}
use exn_gs.Simulator.Dispatch.{owed, numbered, dispatch-owed}
use exn_gs.Simulator.Wrap.{dispatch_wrap}
use exn_gs.Simulator.Structures.{make_system_hk_report-get_all}
use exn_gs.Mission.Layouts.{field, get_be, get_all, size_of}
use exn_gs.Mission.Fields.{
  names, apid, supervision_state, endpoint_state, recovery_state, recovery_reason, recovery_action,
  system_hk_status, hk_structure, time_state,
}
use exn_gs.Mission.Codes.{value_of}
use exn_gs.Mission.Services
use exn_gs.Mission.{ack_read_default, apid_obc, pusid_gs, svc_verify, svc_hk, sub_sys_hk_request}
use exn_gs.Mission.Structures.{
  system_hk_report_prefix_layout, system_hk_endpoint_prefix_layout,
  system_hk_structure_prefix_layout, hk_report_prefix_layout,
}
use exn_gs.Tests.Instances.{demo, ask_hk, demo-RejectsLongCounts}

-- The first element is pushed; while it is popped, the second is being pushed.
abbrev schedule : List (Turn ℕ)
schedule =
    replicate 5 (pushing 7)
    ++ (popping
        ∷ pushing 8
        ∷ popping
        ∷ pushing 8
        ∷ pushing 8
        ∷ popping
        ∷ pushing 8
        ∷ popping
        ∷ popping
        ∷ pushing 8
        ∷ popping
        ∷ [])

schedule_runs :
    let s = run (new_shared (λ i. i)) schedule in
    (s.sent ≡ 7 ∷ 8 ∷ []) × (s.received ≡ 7 ∷ []) × (contents s.queue ≡ 8 ∷ [])
schedule_runs = (refl, refl, refl)

run-new_shared_example :
    let s = run (new_shared (λ i. i)) schedule in
    (s.sent ≡ s.received ++ contents s.queue) × IsRaceFree s.producer s.consumer
run-new_shared_example = run-new_shared (λ i. i) schedule

-- Service 3, subtype 128, with acceptance and completion wanted.
abbrev system_hk : TcMessage
system_hk = record {
  meta = record no_meta { svc = 3; ssvc = 128; apid = 256 };
  pus = record { source_id = 16; acknowledgement_flags = 9; request_id = 25 ∷ 0 ∷ 192 ∷ 1 ∷ [] };
  application_data = [];
}

abbrev clock : ℕ → ℕ
clock seq = 0

dispatch-owed_example :
    dispatch demo clock 100 system_hk
    ≡ ((100 + length (owed system_hk)) % 2 ^ 14, numbered demo clock 16 100 (owed system_hk))
dispatch-owed_example = dispatch-owed demo clock 100 system_hk (omega arith)

dispatch_wrap_example : dispatch demo clock 16383 system_hk ≡ (
  (16383 + length (owed system_hk)) % 2 ^ 14,
  numbered demo clock 16 16383 (take (16384 - 16383) (owed system_hk)),
)
dispatch_wrap_example =
    dispatch_wrap demo clock demo-RejectsLongCounts 16383 system_hk (omega arith)

-- The acceptance is sent, and the report and the completion are not.
dispatch_wrap_runs :
    ((owed system_hk) ≢ [])
    × (length (owed system_hk) ≡ 3)
    × (length (numbered demo clock 16 16383 (take 1 (owed system_hk))) ≡ 1)
unfolding build_tm build_pus_c_tm supported_request
dispatch_wrap_runs = (ground arith, refl, refl)

make_system_hk_report-get_all_example :
    let app = make_system_hk_report system_hk in
    let endpoint = drop (size_of system_hk_report_prefix_layout) app in
    let structure = drop (size_of system_hk_endpoint_prefix_layout) endpoint in
    let block = drop (size_of system_hk_structure_prefix_layout) structure in
    (get_all system_hk_report_prefix_layout app ≡ get_be 4 (25 ∷ 0 ∷ 192 ∷ 1 ∷ []) ∷ 0 ∷ 0 ∷ 1 ∷ [])
    × (get_all system_hk_endpoint_prefix_layout endpoint
        ≡ 256 ∷ 1 ∷ 2 ∷ 0 ∷ 0 ∷ 0 ∷ 0 ∷ 0 ∷ 0 ∷ 0 ∷ 0 ∷ 4294967295 ∷ 0 ∷ 1 ∷ [])
    × (get_all system_hk_structure_prefix_layout structure ≡ 1 ∷ 0 ∷ 32 ∷ [])
    × (block ≡ make_hk_report)
    × (get_all hk_report_prefix_layout block ≡ 1 ∷ 0 ∷ [])
    × (names (system_hk_status ∷ []) (drop 2 (get_all system_hk_report_prefix_layout app))
        ≡ some (codes "EXN_SYSTEM_HK_OK") ∷ [])
    × (names
          (apid ∷ supervision_state ∷ endpoint_state ∷ recovery_state ∷ recovery_reason
            ∷ recovery_action ∷ [])
          (get_all system_hk_endpoint_prefix_layout endpoint)
        ≡ some (codes "APID_OBC")
          ∷ some (codes "EXN_SUPERVISION_OK")
          ∷ some (codes "EXN_STATE_READY")
          ∷ some (codes "EXN_RECOVERY_NONE")
          ∷ some (codes "EXN_RECOVERY_REASON_NONE")
          ∷ some (codes "EXN_RECOVERY_ACTION_NONE")
          ∷ [])
    × (names (hk_structure ∷ []) (get_all hk_report_prefix_layout block)
        ≡ some (codes "EXN_HK_HEARTBEAT") ∷ [])
    × (names (endpoint_state ∷ time_state ∷ []) (
          get_all
            (field (codes "state") 1 ∷ field (codes "time_state") 1 ∷ [])
            (drop (size_of hk_report_prefix_layout) block))
        ≡ some (codes "EXN_STATE_READY") ∷ some (codes "EXN_TIME_UNSYNCED") ∷ [])
make_system_hk_report-get_all_example = make_system_hk_report-get_all system_hk refl

abbrev taken : TcMessage
taken = record {
  meta = (parse_pus_c_tc demo 5 ask_hk (some no_tc_info)).meta;
  pus = record { source_id = 16; acknowledgement_flags = 9; request_id = 25 ∷ 0 ∷ 192 ∷ 1 ∷ [] };
  application_data = [];
}

taken_lem : accept_tc demo 5 ask_hk ≡ some taken
unfolding accept_tc parse_pus_c_tc
taken_lem = refl

abbrev healthy : Platform
healthy = record {
  init_fails = false;
  bind_throws = false;
  tc_task_fails = true;
  tm_task_fails = false;
}

-- With `-v`, and a task that could not be created.
starts_verbose : sim_main healthy (codes "-v" ∷ []) ≡ (
  prints_version
      ∷ prints (codes "stm32_sim listening on 127.0.0.1:" ++ to_string 9000)
      ∷ prints (codes "[EXN SIM] start session")
      ∷ does accepts
      ∷ starts_io_thread
      ∷ creates_tc_task
      ∷ prints (codes "create tc_dispatch_task failed")
      ∷ creates_tm_task
      ∷ starts_scheduler
      ∷ [],
  runs new_link,
)
unfolding sim_main
starts_verbose = refl

-- The request of the test on its way to the dispatcher, which has no trace of it.
traces_request :
    (length (packet_trace demo 5 true ask_hk) ≡ 3)
    × (verdict demo 5 ask_hk
        ≡ codes "[EXN SIM RX] TC "
          ++ (codes "APID="
              ++ to_string 256
              ++ codes " SEQ="
              ++ to_string 1
              ++ codes " SVC="
              ++ to_string 3
              ++ codes " SSV="
              ++ to_string 27))
    × (dispatch_trace true system_hk ≡ [])
unfolding packet_trace verdict dispatch_trace supported_request parse_pus_c_tc
traces_request = (refl, refl, refl)

-- The constants that the code uses are those of the header.
constants_named :
    (value_of Services.apids (codes "APID_OBC") ≡ some apid_obc)
    × (value_of Services.pus_ids (codes "PUSID_GS") ≡ some pusid_gs)
    × (value_of Services.service_numbers (codes "SVC_VERIFY") ≡ some svc_verify)
    × (value_of Services.service_numbers (codes "SVC_HK") ≡ some svc_hk)
    × (value_of Services.hk_subservices (codes "SUB_SYS_HK_REQUEST") ≡ some sub_sys_hk_request)
    × (value_of Services.ack_flags (codes "EXN_PUS_TC_ACK_ACCEPTANCE") ≡ some ack_read_default)
constants_named = (refl, refl, refl, refl, refl, refl)
