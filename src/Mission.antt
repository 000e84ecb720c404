-- ===== src/Mission.antt =====
-- shared/include/exn/shared/exn_interfaces.h: the mission's constants that the programs use.
pub mod Layouts
pub mod Structures
pub mod Codes
pub mod Services
pub mod Health
pub mod Camera
pub mod Fields
use exn_gs.Common.{ℕ}

abbrev pub ack_read_default : ℕ
ack_read_default = 8

abbrev pub apid_obc : ℕ
apid_obc = 256

abbrev pub pusid_gs : ℕ
pusid_gs = 16

abbrev pub svc_verify : ℕ
svc_verify = 1

abbrev pub svc_hk : ℕ
svc_hk = 3

abbrev pub sub_sys_hk_request : ℕ
sub_sys_hk_request = 128
