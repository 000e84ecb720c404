-- ===== src/Mission/Structures.antt =====
-- shared/include/exn/shared/exn_interfaces.h: the fields of the packed structures and their sizes.
use exn_gs.Common.{[], ◌∷◌, codes}
use exn_gs.Mission.Layouts.{Layout, field}

abbrev pub request_id_layout : Layout
request_id_layout = field (codes "packet_id") 2 ∷ field (codes "packet_sequence_control") 2 ∷ []

abbrev pub verification_failure_prefix_layout : Layout
verification_failure_prefix_layout =
    field (codes "request_id") 4
    ∷ field (codes "failure_code") 2
    ∷ field (codes "failure_data_length") 2
    ∷ []

abbrev pub route_envelope_layout : Layout
route_envelope_layout =
    field (codes "transaction_id") 2 ∷ field (codes "target") 1 ∷ field (codes "options") 1 ∷ []

abbrev pub system_hk_report_prefix_layout : Layout
system_hk_report_prefix_layout =
    field (codes "request_id") 4
    ∷ field (codes "snapshot_unix_ms") 8
    ∷ field (codes "system_status") 1
    ∷ field (codes "endpoint_count") 1
    ∷ []

abbrev pub system_hk_endpoint_prefix_layout : Layout
system_hk_endpoint_prefix_layout =
    field (codes "producer_apid") 2
    ∷ field (codes "supervision_state") 1
    ∷ field (codes "endpoint_state") 1
    ∷ field (codes "recovery_state") 1
    ∷ field (codes "recovery_reason") 1
    ∷ field (codes "recovery_action") 1
    ∷ field (codes "recovery_flags") 1
    ∷ field (codes "recovery_attempts") 2
    ∷ field (codes "recovery_successes") 2
    ∷ field (codes "last_recovery_result") 1
    ∷ field (codes "heartbeat_age_ms") 4
    ∷ field (codes "health_age_ms") 4
    ∷ field (codes "last_recovery_unix_ms") 8
    ∷ field (codes "structure_count") 1
    ∷ []

abbrev pub system_hk_structure_prefix_layout : Layout
system_hk_structure_prefix_layout =
    field (codes "structure_id") 2 ∷ field (codes "age_ms") 4 ∷ field (codes "block_length") 2 ∷ []

abbrev pub hk_report_prefix_layout : Layout
hk_report_prefix_layout = field (codes "structure_id") 2 ∷ field (codes "sample_unix_ms") 8 ∷ []

abbrev pub sensors_report_prefix_layout : Layout
sensors_report_prefix_layout = field (codes "hardware_profile_id") 2 ∷ field (codes "count") 2 ∷ []

abbrev pub set_mission_time_layout : Layout
set_mission_time_layout =
    field (codes "unix_ms") 8
    ∷ field (codes "source") 1
    ∷ field (codes "uncertainty_ms") 2
    ∷ field (codes "sequence") 2
    ∷ []

abbrev pub camera_start_layout : Layout
camera_start_layout =
    field (codes "acquisition_id") 4
    ∷ field (codes "mode") 1
    ∷ field (codes "count") 2
    ∷ field (codes "interval_ms") 4
    ∷ field (codes "duration_ms") 4
    ∷ field (codes "product_mask") 2
    ∷ field (codes "flags") 2
    ∷ []

abbrev pub camera_set_configuration_prefix_layout : Layout
camera_set_configuration_prefix_layout = field (codes "flags") 2 ∷ field (codes "count") 2 ∷ []

abbrev pub camera_configuration_entry_prefix_layout : Layout
camera_configuration_entry_prefix_layout =
    field (codes "control_id") 2
    ∷ field (codes "value_type") 1
    ∷ field (codes "value_length") 2
    ∷ []

abbrev pub camera_get_configuration_layout : Layout
camera_get_configuration_layout = field (codes "scope_mask") 2 ∷ []

abbrev pub camera_configuration_report_prefix_layout : Layout
camera_configuration_report_prefix_layout =
    field (codes "configuration_revision") 4
    ∷ field (codes "scope_mask") 2
    ∷ field (codes "count") 2
    ∷ []

abbrev pub camera_configuration_report_entry_prefix_layout : Layout
camera_configuration_report_entry_prefix_layout =
    field (codes "control_id") 2
    ∷ field (codes "status") 1
    ∷ field (codes "value_type") 1
    ∷ field (codes "value_length") 2
    ∷ []

abbrev pub object_transfer_start_layout : Layout
object_transfer_start_layout =
    field (codes "transfer_id") 4
    ∷ field (codes "object_id") 8
    ∷ field (codes "destination_apid") 2
    ∷ field (codes "chunk_size") 2
    ∷ field (codes "flags") 2
    ∷ []

abbrev pub object_chunk_prefix_layout : Layout
object_chunk_prefix_layout =
    field (codes "transfer_id") 4
    ∷ field (codes "object_id") 8
    ∷ field (codes "offset") 8
    ∷ field (codes "data_length") 2
    ∷ []

abbrev pub processing_job_prefix_layout : Layout
processing_job_prefix_layout =
    field (codes "job_id") 4
    ∷ field (codes "operation_id") 2
    ∷ field (codes "input_object_id") 8
    ∷ field (codes "parameter_set_id") 2
    ∷ field (codes "destination_count") 1
    ∷ []
