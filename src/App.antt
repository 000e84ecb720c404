-- ===== src/App.antt =====
-- daemon/include/exn/daemon/app.hpp and daemon/src/app.cpp: the daemon that joins the device link, the
-- framer, the state store and the IPC server. `App::run` wires callbacks; each is a function to the
-- new daemon and what it does outside, in order.
pub mod Events
pub mod Honest
pub mod Invariant
pub mod Packets
pub mod Routing
pub mod Delivery
pub mod Whole
pub mod Options
use exn_gs.Common.{
  ℕ, ◌-◌, Bool, true, false, ◌&&◌, List, [], ◌∷◌, ◌++◌, Option, none, some, Text, codes, to_string,
  text_eq, length, leb, ◌==◌, if◌then◌else◌, not,
}
use exn_gs.Types.{Direction, tc, tm, LinkState, disconnected, connected, PacketRecord}
use exn_gs.Types
use exn_gs.Protocol.{
  MsgType, link_state, packet_rx, packet_tx, query_result, packet_send, error, Frame, PacketMeta,
  unpacked, bad, overrun, pack_string, unpack_string, pack_packet_meta,
}
use exn_gs.SpacePacket.Library.{Pack, ok, err}
use exn_gs.SpacePacket.{DecodedMeta, decode_meta}
use exn_gs.Framer.{Framer, push_bytes}
use exn_gs.State.{StateStore, StateSnapshot, set_link, on_tx, on_decode_error}
use exn_gs.State
use exn_gs.SerialLink.{
  SerialLink, Pending, Effect, starts, state_changes, fails, bytes_arrive, PortAnswer, start, stop,
  write_bytes,
}

-- What the daemon does outside: `send` is to one IPC session, `undefined` is a read from behind the
-- end of a payload.
pub data Output : Type 0 where
  send : ℕ → Frame → Output
  broadcast : Frame → Output
  store : PacketRecord → Output
  operation : Pending → Output
  print_packet : Text → PacketMeta → Text → Output
  undefined : Output

pub record Daemon : Type 0 where
  pub state : StateStore
  pub link : SerialLink
  pub framer : Framer
  pub verbose : Bool

unfoldable pub upper : ℕ → ℕ
upper c = if leb b'a' c && leb c b'z' then c - 32 else c

-- `std::toupper` of each byte, in the "C" locale.
unfoldable pub uppercase : Text → Text
unfolding upper
uppercase [] = []
uppercase (c ∷ cs) = upper c ∷ uppercase cs

unfoldable pub link_state_to_string : LinkState → Text
link_state_to_string disconnected = codes "DISCONNECTED"
link_state_to_string connected = codes "CONNECTED"
link_state_to_string Types.LinkState.error = codes "ERROR"

unfoldable pub make_packet_frame : MsgType → PacketMeta → Text → Frame
make_packet_frame type meta desc = record { type = type; payload = pack_packet_meta meta desc }

unfoldable pub make_error_frame : Text → Frame
make_error_frame message = record { type = error; payload = pack_string message }

unfoldable pub make_query_result : Text → Frame
make_query_result message = record { type = query_result; payload = pack_string message }

unfoldable pub format_stats : StateSnapshot → Text
format_stats snap =
    codes "RX packets="
    ++ to_string snap.rx_packets
    ++ codes " bytes="
    ++ to_string snap.rx_bytes
    ++ codes " | TX packets="
    ++ to_string snap.tx_packets
    ++ codes " bytes="
    ++ to_string snap.tx_bytes
    ++ codes " | decode_errors="
    ++ to_string snap.decode_errors
    ++ codes " framing_errors="
    ++ to_string snap.framing_errors

-- `if (!snap.link_detail.empty()) payload += " " + snap.link_detail;`
unfoldable pub with_detail : Text → Text → Text
with_detail state [] = state
with_detail state (c ∷ cs) = state ++ codes " " ++ c ∷ cs

unfoldable pub current_link_frame : StateStore → Frame
unfolding with_detail link_state_to_string
current_link_frame state =
    let snap = State.snapshot state in
    record {
      type = link_state;
      payload = pack_string (with_detail (link_state_to_string snap.link) snap.link_detail);
    }

-- `link.set_on_state` and `link.set_on_error`, with `publish_link_state`.
unfoldable pub publish : Daemon → LinkState → Text → Daemon × List Output
publish d st detail =
    let state = set_link d.state st detail in
    (record d { state = state }, broadcast (current_link_frame state) ∷ [])

module _ (pack : Pack) where
  -- `declaredPacketSize` as the framer sees it
  unfoldable pub framer_size : List ℕ → Option ℕ
  framer_size bytes = elim (pack.declared_size bytes) [ ok n ↦ some n | err _ ↦ none ]

  -- The record of a received packet; `later` is the clock read when the inspection has failed.
  unfoldable pub record_of : ℕ → DecodedMeta → List ℕ → PacketRecord
  record_of later m bytes = record {
    ts_ns = if m.decoded then m.meta.ts_ns else later;
    dir = if m.decoded && m.meta.typ == 1 then tc else tm;
    apid = if m.decoded then m.meta.apid else 0;
    seq = if m.decoded then m.meta.seq else 0;
    service = if m.decoded then m.meta.svc else 0;
    subservice = if m.decoded then m.meta.ssvc else 0;
    summary = if m.decoded then codes "RX" else codes "RX INVALID: " ++ m.error;
    raw = bytes;
  }

  -- `framer.set_on_packet`
  unfoldable pub on_packet : ℕ → ℕ → Daemon → List ℕ → Daemon × List Output
  unfolding record_of
  on_packet now later d bytes =
      let m = decode_meta pack now bytes in
      let rec = record_of later m bytes in
      let counted = State.on_packet d.state rec in
      if m.decoded
      then (
        record d { state = counted },
        store rec
            ∷ broadcast (make_packet_frame packet_rx m.meta (codes "RX"))
            ∷ (if d.verbose
                then print_packet (codes "[RX<-LINK]") m.meta (codes "RX") ∷ []
                else []),
      )
      else (
        record d { state = on_decode_error counted },
        store rec ∷ broadcast (make_error_frame rec.summary) ∷ [],
      )

  -- `now` and `later` are the clock for each of them: what the clock moves on between them is left out.
  unfoldable pub on_packets : ℕ → ℕ → Daemon → List (List ℕ) → Daemon × List Output
  on_packets now later d [] = (d, [])
  on_packets now later d (p ∷ ps) =
      let (d', outputs) = on_packet now later d p in
      let (d'', more) = on_packets now later d' ps in (d'', outputs ++ more)

  -- `link.set_on_bytes`
  unfoldable pub on_bytes : ℕ → ℕ → Daemon → List ℕ → Daemon × List Output
  on_bytes now later d bytes =
      let (framer, packets) = push_bytes framer_size d.framer bytes in
      on_packets now later (record d { framer = framer }) packets

  -- The callbacks of a link method or handler that has run, in order.
  unfoldable pub run_effect : ℕ → ℕ → Daemon → Effect → Daemon × List Output
  run_effect now later d (starts p) = (d, operation p ∷ [])
  run_effect now later d (state_changes opened detail) =
      publish d (if opened then connected else disconnected) detail
  run_effect now later d (fails message) = publish d Types.LinkState.error message
  run_effect now later d (bytes_arrive bytes) = on_bytes now later d bytes

  unfoldable pub run_effects : ℕ → ℕ → Daemon → List Effect → Daemon × List Output
  run_effects now later d [] = (d, [])
  run_effects now later d (e ∷ es) =
      let (d', outputs) = run_effect now later d e in
      let (d'', more) = run_effects now later d' es in (d'', outputs ++ more)

  -- The link has become `l`, and calls back.
  unfoldable pub with_link : ℕ → ℕ → Daemon → SerialLink × List Effect → Daemon × List Output
  with_link now later d (l, effects) = run_effects now later (record d { link = l }) effects

  -- The daemon after one callback, then what the second does.
  abbrev pub and_then :
      Daemon × List Output → (Daemon → Daemon × List Output) → Daemon × List Output
  and_then (d, outputs) go = ((go d).0, outputs ++ (go d).1)

  -- The commands, on a text that is already in upper case; `answer` is what the serial port answers.
  unfoldable pub run_command : ℕ → ℕ → PortAnswer → Daemon → ℕ → Text → Daemon × List Output
  run_command now later answer d session command =
      if text_eq command (codes "CONNECT")
      then if d.link.opened
        then (d, send session (current_link_frame d.state) ∷ [])
        else with_link now later d (start d.link answer)
      else if text_eq command (codes "DISCONNECT")
      then with_link now later d (stop d.link)
      else if text_eq command (codes "RECONNECT")
      then and_then (with_link now later d (stop d.link))
          (λ d'. with_link now later d' (start d'.link answer))
      else if text_eq command (codes "PING")
      then (d, send session (make_query_result (codes "PONG")) ∷ [])
      else if text_eq command (codes "STATUS")
      then (d, send session (current_link_frame d.state) ∷ [])
      else if text_eq command (codes "STATS")
      then (d, send session (make_query_result (format_stats (State.snapshot d.state))) ∷ [])
      else (
        d,
        send session (make_error_frame (codes "Unsupported daemon command: " ++ command)) ∷ [],
      )

  unfoldable pub reject_packet : Daemon → ℕ → Text → Daemon × List Output
  reject_packet d session why =
      (d, send session (make_error_frame (codes "Rejected outbound packet: " ++ why)) ∷ [])

  -- `PacketSend`
  unfoldable pub route_packet : ℕ → ℕ → Daemon → ℕ → List ℕ → Daemon × List Output
  route_packet now later d session bytes =
      let m = decode_meta pack now bytes in
      if not m.decoded
      then reject_packet d session m.error
      else if not d.link.opened
      then reject_packet d session (codes "device link is disconnected")
      else and_then (with_link now later d (write_bytes d.link bytes)) (λ d'. (
        record d' { state = on_tx d'.state (length bytes) },
        broadcast (make_packet_frame packet_tx m.meta (codes "TX"))
            ∷ (if d.verbose
                then print_packet (codes "[TX->LINK]") m.meta (codes "TX") ∷ []
                else []),
      ))

  abbrev is_packet_send : MsgType → Bool
  is_packet_send packet_send = true
  is_packet_send _ = false

  -- `ipc.set_on_frame`
  unfoldable pub on_frame : ℕ → ℕ → PortAnswer → Daemon → ℕ → Frame → Daemon × List Output
  on_frame now later answer d session frame =
      if is_packet_send frame.type
      then route_packet now later d session frame.payload
      else elim (unpack_string frame.payload) [
        | bad ↦ (d, send session (make_error_frame (codes "Invalid IPC command payload")) ∷ [])
        | overrun ↦ (d, undefined ∷ [])
        | unpacked command ↦ run_command now later answer d session (uppercase command)
      ]

  -- `ipc.set_on_connect`
  unfoldable pub on_connect : Daemon → ℕ → Daemon × List Output
  on_connect d session = (d, send session (current_link_frame d.state) ∷ [])
