-- ===== src/Mission/Health.antt =====
-- shared/include/exn/shared/exn_interfaces.h: the codes of the housekeeping reports, by the names in the source.
use exn_gs.Common.{[], ◌∷◌, ◌^◌}
use exn_gs.Mission.Codes.{Enum, entry}

abbrev pub hk_structures : Enum
hk_structures =
    entry "EXN_HK_HEARTBEAT" 1
    ∷ entry "EXN_HK_HEALTH" 2
    ∷ entry "EXN_HK_SENSORS" 3
    ∷ entry "EXN_HK_LINKS" 4
    ∷ []

abbrev pub hardware_profiles : Enum
hardware_profiles =
    entry "EXN_HW_STM32H755_NUCLEO" 0x0001
    ∷ entry "EXN_HW_RPI5" 0x0101
    ∷ entry "EXN_HW_KRIA_K26" 0x0201
    ∷ entry "EXN_HW_KRIA_KV260" 0x0202
    ∷ []

abbrev pub sensor_ids : Enum
sensor_ids =
    entry "EXN_SENSOR_OBC_MCU_JUNCTION_TEMP" 0x0101
    ∷ entry "EXN_SENSOR_OBC_VDDA_ESTIMATE" 0x0102
    ∷ entry "EXN_SENSOR_OBC_VBAT" 0x0103
    ∷ entry "EXN_SENSOR_PI5_SOC_TEMP" 0x1101
    ∷ entry "EXN_SENSOR_PI5_EXT5V" 0x1102
    ∷ entry "EXN_SENSOR_PI5_CORE_VOLTAGE" 0x1103
    ∷ entry "EXN_SENSOR_K26_JUNCTION_TEMP" 0x2101
    ∷ entry "EXN_SENSOR_K26_PS_0V85" 0x2110
    ∷ entry "EXN_SENSOR_K26_PS_1V80" 0x2111
    ∷ entry "EXN_SENSOR_K26_PL_0V72" 0x2120
    ∷ entry "EXN_SENSOR_K26_PL_1V80" 0x2121
    ∷ entry "EXN_SENSOR_K26_PL_0V85" 0x2122
    ∷ entry "EXN_SENSOR_KV260_SOM_5V_VOLTAGE" 0x2180
    ∷ entry "EXN_SENSOR_KV260_SOM_5V_CURRENT" 0x2181
    ∷ entry "EXN_SENSOR_KV260_SOM_5V_POWER" 0x2182
    ∷ []

abbrev pub sensor_statuses : Enum
sensor_statuses =
    entry "EXN_SENSOR_VALID" 0
    ∷ entry "EXN_SENSOR_UNAVAILABLE" 1
    ∷ entry "EXN_SENSOR_STALE" 2
    ∷ entry "EXN_SENSOR_FAULT" 3
    ∷ []

abbrev pub sensor_alarms : Enum
sensor_alarms =
    entry "EXN_ALARM_NORMAL" 0
    ∷ entry "EXN_ALARM_WARN_LOW" 1
    ∷ entry "EXN_ALARM_WARN_HIGH" 2
    ∷ entry "EXN_ALARM_CRIT_LOW" 3
    ∷ entry "EXN_ALARM_CRIT_HIGH" 4
    ∷ []

abbrev pub pi_health_flags : Enum
pi_health_flags =
    entry "EXN_PI_HEALTH_UNDERVOLTAGE_NOW" (2 ^ 0)
    ∷ entry "EXN_PI_HEALTH_FREQ_CAPPED_NOW" (2 ^ 1)
    ∷ entry "EXN_PI_HEALTH_THROTTLED_NOW" (2 ^ 2)
    ∷ entry "EXN_PI_HEALTH_SOFT_TEMP_LIMIT_NOW" (2 ^ 3)
    ∷ entry "EXN_PI_HEALTH_UNDERVOLTAGE_OCCURRED" (2 ^ 16)
    ∷ entry "EXN_PI_HEALTH_FREQ_CAPPED_OCCURRED" (2 ^ 17)
    ∷ entry "EXN_PI_HEALTH_THROTTLED_OCCURRED" (2 ^ 18)
    ∷ entry "EXN_PI_HEALTH_SOFT_TEMP_OCCURRED" (2 ^ 19)
    ∷ []

abbrev pub endpoint_states : Enum
endpoint_states =
    entry "EXN_STATE_UNKNOWN" 0
    ∷ entry "EXN_STATE_STARTING" 1
    ∷ entry "EXN_STATE_READY" 2
    ∷ entry "EXN_STATE_BUSY" 3
    ∷ entry "EXN_STATE_DEGRADED" 4
    ∷ entry "EXN_STATE_ERROR" 5
    ∷ entry "EXN_STATE_UPDATING" 6
    ∷ entry "EXN_STATE_OFFLINE" 7
    ∷ []

abbrev pub supervision_states : Enum
supervision_states =
    entry "EXN_SUPERVISION_UNKNOWN" 0
    ∷ entry "EXN_SUPERVISION_OK" 1
    ∷ entry "EXN_SUPERVISION_STALE" 2
    ∷ entry "EXN_SUPERVISION_OFFLINE" 3
    ∷ entry "EXN_SUPERVISION_ERROR" 4
    ∷ []

abbrev pub recovery_states : Enum
recovery_states =
    entry "EXN_RECOVERY_NONE" 0
    ∷ entry "EXN_RECOVERY_PENDING" 1
    ∷ entry "EXN_RECOVERY_ACTION_SENT" 2
    ∷ entry "EXN_RECOVERY_WAITING_FOR_HEALTH" 3
    ∷ entry "EXN_RECOVERY_RECOVERED" 4
    ∷ entry "EXN_RECOVERY_FAILED" 5
    ∷ entry "EXN_RECOVERY_SUPPRESSED" 6
    ∷ []

abbrev pub recovery_reasons : Enum
recovery_reasons =
    entry "EXN_RECOVERY_REASON_NONE" 0
    ∷ entry "EXN_RECOVERY_REASON_HEARTBEAT_TIMEOUT" 1
    ∷ entry "EXN_RECOVERY_REASON_HEALTH_TIMEOUT" 2
    ∷ entry "EXN_RECOVERY_REASON_PROTOCOL_ERROR" 3
    ∷ entry "EXN_RECOVERY_REASON_CRASH_LOOP" 4
    ∷ entry "EXN_RECOVERY_REASON_THERMAL" 5
    ∷ entry "EXN_RECOVERY_REASON_POWER_FAULT" 6
    ∷ entry "EXN_RECOVERY_REASON_MANUAL" 7
    ∷ []

abbrev pub recovery_actions : Enum
recovery_actions =
    entry "EXN_RECOVERY_ACTION_NONE" 0
    ∷ entry "EXN_RECOVERY_ACTION_REINITIALIZE" 1
    ∷ entry "EXN_RECOVERY_ACTION_RESTART_SERVICE" 2
    ∷ entry "EXN_RECOVERY_ACTION_SOFT_REBOOT" 3
    ∷ entry "EXN_RECOVERY_ACTION_HARD_RESET" 4
    ∷ entry "EXN_RECOVERY_ACTION_POWER_CYCLE" 5
    ∷ []

abbrev pub recovery_results : Enum
recovery_results =
    entry "EXN_RECOVERY_RESULT_NONE" 0
    ∷ entry "EXN_RECOVERY_RESULT_SUCCESS" 1
    ∷ entry "EXN_RECOVERY_RESULT_FAILED" 2
    ∷ entry "EXN_RECOVERY_RESULT_SUPPRESSED" 3
    ∷ []

abbrev pub recovery_flags : Enum
recovery_flags =
    entry "EXN_RECOVERY_FLAG_AUTO_ENABLED" (2 ^ 0)
    ∷ entry "EXN_RECOVERY_FLAG_COOLDOWN_ACTIVE" (2 ^ 1)
    ∷ entry "EXN_RECOVERY_FLAG_RETRY_LIMIT_REACHED" (2 ^ 2)
    ∷ entry "EXN_RECOVERY_FLAG_HARD_RESET_AVAILABLE" (2 ^ 3)
    ∷ entry "EXN_RECOVERY_FLAG_POWER_CYCLE_AVAILABLE" (2 ^ 4)
    ∷ []

abbrev pub system_hk_statuses : Enum
system_hk_statuses =
    entry "EXN_SYSTEM_HK_OK" 0
    ∷ entry "EXN_SYSTEM_HK_DEGRADED" 1
    ∷ entry "EXN_SYSTEM_HK_ERROR" 2
    ∷ []

abbrev pub time_states : Enum
time_states =
    entry "EXN_TIME_UNSYNCED" 0
    ∷ entry "EXN_TIME_SYNCED" 1
    ∷ entry "EXN_TIME_HOLDOVER" 2
    ∷ entry "EXN_TIME_INVALID" 3
    ∷ []
