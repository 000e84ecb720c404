-- ===== src/Mission/Services.antt =====
-- shared/include/exn/shared/exn_interfaces.h: units, services and their subservices, by the names in the source.
use exn_gs.Common.{[], ◌∷◌}
use exn_gs.Mission.Codes.{Enum, entry}

abbrev pub apids : Enum
apids =
    entry "APID_GS" 0x0f0
    ∷ entry "APID_OBC" 0x100
    ∷ entry "APID_PI_CAM" 0x101
    ∷ entry "APID_FPGA" 0x102
    ∷ entry "APID_ANTENNA" 0x103
    ∷ entry "APID_PI_MGMT" 0x104
    ∷ []

abbrev pub pus_ids : Enum
pus_ids =
    entry "PUSID_OBC" 0x0001
    ∷ entry "PUSID_PI_CAM" 0x0002
    ∷ entry "PUSID_FPGA" 0x0003
    ∷ entry "PUSID_ANTENNA" 0x0004
    ∷ entry "PUSID_PI_MGMT" 0x0005
    ∷ entry "PUSID_GS" 0x0010
    ∷ []

abbrev pub service_numbers : Enum
service_numbers =
    entry "SVC_VERIFY" 1
    ∷ entry "SVC_HK" 3
    ∷ entry "SVC_EVENTS" 5
    ∷ entry "SVC_FUNCTION" 8
    ∷ entry "SVC_TIME" 9
    ∷ entry "SVC_MONITOR" 12
    ∷ entry "SVC_PARAM" 20
    ∷ entry "SVC_CAMERA" 200
    ∷ entry "SVC_PROCESS" 210
    ∷ entry "SVC_OBJECT" 220
    ∷ entry "SVC_SOFTWARE" 230
    ∷ []

abbrev pub verify_subservices : Enum
verify_subservices =
    entry "SUB_VERIFY_ACCEPT_OK" 1
    ∷ entry "SUB_VERIFY_ACCEPT_FAIL" 2
    ∷ entry "SUB_VERIFY_START_OK" 3
    ∷ entry "SUB_VERIFY_START_FAIL" 4
    ∷ entry "SUB_VERIFY_PROGRESS_OK" 5
    ∷ entry "SUB_VERIFY_PROGRESS_FAIL" 6
    ∷ entry "SUB_VERIFY_COMPLETE_OK" 7
    ∷ entry "SUB_VERIFY_COMPLETE_FAIL" 8
    ∷ []

abbrev pub hk_subservices : Enum
hk_subservices =
    entry "SUB_HK_ENABLE_PERIODIC" 5
    ∷ entry "SUB_HK_DISABLE_PERIODIC" 6
    ∷ entry "SUB_HK_REPORT" 25
    ∷ entry "SUB_HK_REQUEST" 27
    ∷ entry "SUB_SYS_HK_REQUEST" 128
    ∷ entry "SUB_SYS_HK_REPORT" 129
    ∷ []

abbrev pub event_subservices : Enum
event_subservices =
    entry "SUB_EVENT_INFO" 1
    ∷ entry "SUB_EVENT_LOW" 2
    ∷ entry "SUB_EVENT_MEDIUM" 3
    ∷ entry "SUB_EVENT_HIGH" 4
    ∷ []

abbrev pub function_subservices : Enum
function_subservices = entry "SUB_FUNCTION_PERFORM" 1 ∷ []

abbrev pub time_subservices : Enum
time_subservices = entry "SUB_TIME_SET_MISSION" 128 ∷ []

abbrev pub monitor_subservices : Enum
monitor_subservices =
    entry "SUB_MONITOR_ENABLE_DEF" 1
    ∷ entry "SUB_MONITOR_DISABLE_DEF" 2
    ∷ entry "SUB_MONITOR_GET_OOL" 10
    ∷ entry "SUB_MONITOR_OOL_REPORT" 11
    ∷ entry "SUB_MONITOR_GET_STATUS" 13
    ∷ entry "SUB_MONITOR_STATUS_REPORT" 14
    ∷ entry "SUB_MONITOR_ENABLE" 15
    ∷ entry "SUB_MONITOR_DISABLE" 16
    ∷ []

abbrev pub param_subservices : Enum
param_subservices =
    entry "SUB_PARAM_REPORT_REQUEST" 1 ∷ entry "SUB_PARAM_REPORT" 2 ∷ entry "SUB_PARAM_SET" 3 ∷ []

abbrev pub camera_subservices : Enum
camera_subservices =
    entry "SUB_CAM_START" 1
    ∷ entry "SUB_CAM_STOP" 2
    ∷ entry "SUB_CAM_SET_CONFIGURATION" 3
    ∷ entry "SUB_CAM_GET_CONFIGURATION" 4
    ∷ entry "SUB_CAM_CONFIGURATION_REPORT" 5
    ∷ entry "SUB_CAM_GET_CAPABILITIES" 6
    ∷ entry "SUB_CAM_CAPABILITIES" 7
    ∷ entry "SUB_CAM_LIST_PRODUCTS" 8
    ∷ entry "SUB_CAM_PRODUCT_CATALOG" 9
    ∷ entry "SUB_CAM_DELETE_PRODUCT" 10
    ∷ entry "SUB_CAM_GET_ACQ_STATUS" 11
    ∷ entry "SUB_CAM_ACQ_STATUS" 12
    ∷ []

abbrev pub process_subservices : Enum
process_subservices =
    entry "SUB_PROCESS_SUBMIT" 1
    ∷ entry "SUB_PROCESS_CANCEL" 2
    ∷ entry "SUB_PROCESS_GET_STATUS" 3
    ∷ entry "SUB_PROCESS_STATUS" 4
    ∷ entry "SUB_PROCESS_GET_CAPS" 5
    ∷ entry "SUB_PROCESS_CAPS" 6
    ∷ entry "SUB_PROCESS_SMALL_RESULT" 7
    ∷ []

abbrev pub object_subservices : Enum
object_subservices =
    entry "SUB_OBJECT_START" 1
    ∷ entry "SUB_OBJECT_STOP" 2
    ∷ entry "SUB_OBJECT_GET_STATUS" 3
    ∷ entry "SUB_OBJECT_METADATA" 10
    ∷ entry "SUB_OBJECT_CHUNK" 11
    ∷ entry "SUB_OBJECT_COMPLETE" 12
    ∷ entry "SUB_OBJECT_STATUS" 13
    ∷ []

abbrev pub software_subservices : Enum
software_subservices =
    entry "SUB_SW_GET_INVENTORY" 1
    ∷ entry "SUB_SW_INVENTORY" 2
    ∷ entry "SUB_SW_STAGE" 3
    ∷ entry "SUB_SW_ACTIVATE" 4
    ∷ entry "SUB_SW_ROLLBACK" 5
    ∷ entry "SUB_SW_GET_STATUS" 6
    ∷ entry "SUB_SW_STATUS" 7
    ∷ []

abbrev pub function_ids : Enum
function_ids =
    entry "EXN_FUNCTION_CLEAR_FAULTS" 0x0001
    ∷ entry "EXN_FUNCTION_REINITIALIZE" 0x0002
    ∷ entry "EXN_FUNCTION_REBOOT_NODE" 0x0003
    ∷ entry "EXN_FUNCTION_ENTER_IDLE" 0x0004
    ∷ entry "EXN_FUNCTION_LEAVE_IDLE" 0x0005
    ∷ entry "EXN_FUNCTION_CREATE_DIAGNOSTIC_LOG" 0x0006
    ∷ entry "EXN_FUNCTION_PI_RESTART_CAMERA" 0x0101
    ∷ entry "EXN_FUNCTION_PI_RESTART_ANTENNA" 0x0102
    ∷ entry "EXN_FUNCTION_PI_RESTART_MISSION" 0x0103
    ∷ entry "EXN_FUNCTION_PI_REBOOT" 0x0104
    ∷ entry "EXN_FUNCTION_PI_SHUTDOWN" 0x0105
    ∷ []

abbrev pub route_targets : Enum
route_targets =
    entry "EXN_TARGET_PI_CAM" 1
    ∷ entry "EXN_TARGET_FPGA" 2
    ∷ entry "EXN_TARGET_ANTENNA" 3
    ∷ entry "EXN_TARGET_PI_MGMT" 4
    ∷ []

abbrev pub ack_flags : Enum
ack_flags =
    entry "EXN_PUS_TC_ACK_ACCEPTANCE" 0x8
    ∷ entry "EXN_PUS_TC_ACK_COMPLETION" 0x1
    ∷ entry "EXN_PUS_TC_ACK_START" 0x4
    ∷ entry "EXN_PUS_TC_ACK_PROGRESS" 0x2
    ∷ []
