-- ===== src/Ui.antt =====
-- ui/include/exn/ui/ui_app.hpp and ui/src/ui_app.cpp: the user interface. Every callback of `UiApp::run`
-- is a function to the new state and what it does outside, in order.
pub mod Table
pub mod Keys
pub mod Events
pub mod Options
pub mod Elements
pub mod Outgoing
pub mod Screen
use exn_gs.Common.{
  ℕ, ◌+◌, ◌%◌, ◌^◌, Bool, true, false, ◌&&◌, List, [], ◌∷◌, ◌++◌, Text, codes, starts_with, length,
  ltb, if◌then◌else◌, none, some,
}
use exn_gs.Mission.{apid_obc, svc_hk, sub_sys_hk_request, pusid_gs, ack_read_default}
use exn_gs.Protocol.{
  MsgType, hello, link_state, packet_rx, packet_tx, error, query_result, Frame, PacketMeta,
  unpacked, bad, overrun, unpack_string, unpack_packet_meta,
}
use exn_gs.SpacePacket.{build_pus_c_tc}
use exn_gs.SpacePacket.Library.{Pack}
use exn_gs.IpcClient

pub record PacketRow : Type 0 where
  pub m : PacketMeta
  pub desc : Text

-- What `run` keeps in `UiApp` and in its local variables.
pub record UiApp : Type 0 where
  pub daemon_line : Text
  pub device_line : Text
  pub notice_line : Text
  pub tx_rows : List PacketRow
  pub rx_rows : List PacketRow
  pub daemon_connected : Bool
  pub device_connected : Bool
  pub hk_enabled : Bool
  pub tc_sequence : ℕ
  pub cmd_mode : Bool
  pub help_mode : Bool
  pub cmd_input : Text

abbrev pub new_app : UiApp
new_app = record {
  daemon_line = codes "CONNECTING";
  device_line = codes "UNKNOWN";
  notice_line = [];
  tx_rows = [];
  rx_rows = [];
  daemon_connected = false;
  device_connected = false;
  hk_enabled = false;
  tc_sequence = 1;
  cmd_mode = false;
  help_mode = false;
  cmd_input = [];
}

-- `sends_packet` and `sends_command` are calls of the IPC client; `queues_hk` posts `send_system_hk`;
-- `arms` starts the timer of 30 seconds; `undefined` is a read from behind a payload's end.
pub data Output : Type 0 where
  redraws queues_hk arms exits undefined : Output
  sends_packet : List ℕ → Output
  sends_command : Text → Output

abbrev pub Result : Type 0
Result = UiApp × List Output

unfoldable pub trim_rows {ℓ} : {A : Type ℓ} → ℕ → List A → List A
trim_rows maxn [] = []
trim_rows maxn (row ∷ rows) =
    let popped = trim_rows maxn rows in
    if ltb maxn (length (row ∷ rows)) then popped else row ∷ rows

unfoldable pub push_tx : UiApp → PacketMeta → Text → UiApp
push_tx u m desc = record u {
  tx_rows = trim_rows 5000 (u.tx_rows ++ record { m = m; desc = desc } ∷ []);
}

unfoldable pub push_rx : UiApp → PacketMeta → Text → UiApp
push_rx u m desc = record u {
  rx_rows = trim_rows 5000 (u.rx_rows ++ record { m = m; desc = desc } ∷ []);
}

unfoldable pub set_notice : UiApp → Text → Result
set_notice u message = (record u { notice_line = message }, redraws ∷ [])

module _ (pack : Pack) where
  unfoldable pub send_system_hk : UiApp → Result
  unfolding set_notice
  send_system_hk u =
      let b =
        build_pus_c_tc pack apid_obc u.tc_sequence svc_hk sub_sys_hk_request pusid_gs
          ack_read_default [] in
      if b.built
      then (
        record u { tc_sequence = (u.tc_sequence + 1) % 2 ^ 16 % 2 ^ 14 },
        sends_packet b.packet ∷ [],
      )
      else set_notice u (codes "ERROR: cannot build PUS-C System HK TC: " ++ b.error)

  -- The timer's handler; `arm_hk` again.
  unfoldable pub on_hk_timer : UiApp → Bool → Result
  unfolding send_system_hk
  on_hk_timer u true = (u, [])
  on_hk_timer u false =
      if u.hk_enabled && u.daemon_connected && u.device_connected
      then (let (u', outputs) = send_system_hk u in (u', outputs ++ arms ∷ []))
      else (u, arms ∷ [])

unfoldable pub on_connection_state : UiApp → Bool → Text → Result
on_connection_state u true detail =
    (record u { daemon_connected = true; daemon_line = codes "CONNECTED " ++ detail }, redraws ∷ [])
on_connection_state u false detail = (
  record u {
    daemon_connected = false;
    device_connected = false;
    daemon_line = codes "RECONNECTING " ++ detail;
    device_line = codes "UNKNOWN";
  },
  redraws ∷ [],
)

-- A payload's text, and what is done with it if there is one.
abbrev pub with_text : UiApp → List ℕ → (Text → Result) → Result
with_text u payload go = elim (unpack_string payload) [
  | unpacked text ↦ go text
  | bad ↦ (u, [])
  | overrun ↦ (u, undefined ∷ [])
]

unfoldable pub on_frame : UiApp → Frame → Result
unfolding set_notice push_rx push_tx
on_frame u f = elim f.type [
  | hello ↦ with_text u f.payload (λ server. set_notice u (codes "IPC handshake: " ++ server))
  | link_state ↦ with_text u f.payload (λ s. (
    record u { device_connected = starts_with s (codes "CONNECTED"); device_line = s },
    redraws ∷ [],
  ))
  | packet_rx ↦ elim (unpack_packet_meta f.payload) [
    | none ↦ (u, [])
    | some (m, desc) ↦ (push_rx u m desc, redraws ∷ [])
  ]
  | packet_tx ↦ elim (unpack_packet_meta f.payload) [
    | none ↦ (u, [])
    | some (m, desc) ↦ (push_tx u m desc, redraws ∷ [])
  ]
  | query_result ↦ with_text u f.payload (λ s. set_notice u s)
  | error ↦ with_text u f.payload (λ s. set_notice u (codes "ERROR: " ++ s))
  | _ ↦ (u, [])
]

-- Behind `screen.Loop`: the timer is cancelled and the event loop stopped.
unfoldable pub after_loop : UiApp → UiApp
after_loop u = record u { hk_enabled = false }
