-- ===== src/Mission/Fields.antt =====
-- shared/include/exn/shared/exn_interfaces.h: the kinds of coded values and the bytes that one takes in
-- the structures; where no structure of the header has such a field, the bytes that the largest
-- value takes.
use exn_gs.Common.{ℕ, ◌≡◌, List, [], ◌∷◌, ◌++◌, arith, Option, some, Text, true}
use exn_gs.Mission.Layouts.{get_be, put_be, get_be-put_be}
use exn_gs.Mission.Codes.{Enum, value_of, name_of, distinct, fits, name_of-value_of, fits-value_of}
use exn_gs.Mission.Services
use exn_gs.Mission.Health
use exn_gs.Mission.Camera

pub data Coded : Type 0 where
  apid pus_id service verify_subservice hk_subservice event_subservice : Coded
  function_subservice time_subservice monitor_subservice param_subservice camera_subservice
        process_subservice :
      Coded
  object_subservice software_subservice function_id route_target ack_flag hk_structure : Coded
  hardware_profile sensor_id sensor_status sensor_alarm pi_health_flag endpoint_state : Coded
  supervision_state recovery_state recovery_reason recovery_action recovery_result recovery_flag :
      Coded
  system_hk_status time_state value_type camera_scope camera_config_flag camera_acq_flag : Coded
  camera_config_status camera_control camera_param object_type object_format : Coded

abbrev pub enum_of : Coded → Enum
enum_of apid = Services.apids
enum_of pus_id = Services.pus_ids
enum_of service = Services.service_numbers
enum_of verify_subservice = Services.verify_subservices
enum_of hk_subservice = Services.hk_subservices
enum_of event_subservice = Services.event_subservices
enum_of function_subservice = Services.function_subservices
enum_of time_subservice = Services.time_subservices
enum_of monitor_subservice = Services.monitor_subservices
enum_of param_subservice = Services.param_subservices
enum_of camera_subservice = Services.camera_subservices
enum_of process_subservice = Services.process_subservices
enum_of object_subservice = Services.object_subservices
enum_of software_subservice = Services.software_subservices
enum_of function_id = Services.function_ids
enum_of route_target = Services.route_targets
enum_of ack_flag = Services.ack_flags
enum_of hk_structure = Health.hk_structures
enum_of hardware_profile = Health.hardware_profiles
enum_of sensor_id = Health.sensor_ids
enum_of sensor_status = Health.sensor_statuses
enum_of sensor_alarm = Health.sensor_alarms
enum_of pi_health_flag = Health.pi_health_flags
enum_of endpoint_state = Health.endpoint_states
enum_of supervision_state = Health.supervision_states
enum_of recovery_state = Health.recovery_states
enum_of recovery_reason = Health.recovery_reasons
enum_of recovery_action = Health.recovery_actions
enum_of recovery_result = Health.recovery_results
enum_of recovery_flag = Health.recovery_flags
enum_of system_hk_status = Health.system_hk_statuses
enum_of time_state = Health.time_states
enum_of value_type = Camera.value_types
enum_of camera_scope = Camera.camera_scopes
enum_of camera_config_flag = Camera.camera_config_flags
enum_of camera_acq_flag = Camera.camera_acq_flags
enum_of camera_config_status = Camera.camera_config_statuses
enum_of camera_control = Camera.camera_controls
enum_of camera_param = Camera.camera_params
enum_of object_type = Camera.object_types
enum_of object_format = Camera.object_formats

abbrev pub width_of : Coded → ℕ
width_of apid = 2
width_of pus_id = 2
width_of service = 1
width_of verify_subservice = 1
width_of hk_subservice = 1
width_of event_subservice = 1
width_of function_subservice = 1
width_of time_subservice = 1
width_of monitor_subservice = 1
width_of param_subservice = 1
width_of camera_subservice = 1
width_of process_subservice = 1
width_of object_subservice = 1
width_of software_subservice = 1
width_of function_id = 2
width_of route_target = 1
width_of ack_flag = 1
width_of hk_structure = 2
width_of hardware_profile = 2
width_of sensor_id = 2
width_of sensor_status = 1
width_of sensor_alarm = 1
width_of pi_health_flag = 4
width_of endpoint_state = 1
width_of supervision_state = 1
width_of recovery_state = 1
width_of recovery_reason = 1
width_of recovery_action = 1
width_of recovery_result = 1
width_of recovery_flag = 1
width_of system_hk_status = 1
width_of time_state = 1
width_of value_type = 1
width_of camera_scope = 2
width_of camera_config_flag = 2
width_of camera_acq_flag = 2
width_of camera_config_status = 1
width_of camera_control = 2
width_of camera_param = 2
width_of object_type = 2
width_of object_format = 2

enum_of-distinct : (k : Coded) → distinct (enum_of k) ≡ true
enum_of-distinct k = ground arith

enum_of-fits : (k : Coded) → fits (width_of k) (enum_of k) ≡ true
enum_of-fits k = ground arith

-- The names of the first values, each of its kind.
abbrev pub names : List Coded → List ℕ → List (Option Text)
names [] vs = []
names (k ∷ ks) [] = []
names (k ∷ ks) (v ∷ vs) = name_of (enum_of k) v ∷ names ks vs

-- A named value that is written in its field, the most significant byte first, is read back under its
-- name, whatever stands behind it.
get_be-name :
    (k : Coded) (n : Text) (v : ℕ) (rest : List ℕ)
    → value_of (enum_of k) n ≡ some v
    → name_of (enum_of k) (get_be (width_of k) (put_be (width_of k) v ++ rest)) ≡ some n
get_be-name k n v rest h =
    rw
      (get_be-put_be (width_of k) v rest
        (fits-value_of (width_of k) (enum_of k) n v (enum_of-fits k) h))
      (name_of-value_of (enum_of k) n v (enum_of-distinct k) h)
