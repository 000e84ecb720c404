-- ===== src/Tests/Interfaces.antt =====
-- Concrete runs of the user interface and of the simulator's sessions.
use exn_gs.Common.{
  ℕ, ◌+◌, ◌/◌, ◌%◌, ◌≡◌, refl, arith, true, false, List, [], ◌∷◌, ◌++◌, Text, codes, take, All,
}
use mathlib.Core.List.{reverse}
use exn_gs.Protocol.{Frame, packet_rx, link_state, no_meta, pack_packet_meta, pack_string}
use exn_gs.State.Ring.{last}
use exn_gs.Ui.{new_app, PacketRow}
use exn_gs.Ui.Keys.{return, character}
use exn_gs.Ui.Events.{Event, connection, frame, timer, key, run, sent}
use exn_gs.Ui.Events.History.{rx_history, tx_history, run-rows}
use exn_gs.Ui.Events.Requests.{IsNumbered, run-requests}
use exn_gs.Ui.Events.Typing.{typing}
use exn_gs.Ui.Table.{LocalTime, desc_width, render_packet_table_text, preformatted_block}
use exn_gs.Ui.Table.Columns.{IsLocalTime}
use exn_gs.Ui.Table.Cells.{IsTableLine, heading, rule}
use exn_gs.Ui.Table.Lines.{IsShowable, shown_lines, preformatted_block-render}
use exn_gs.Simulator.Sessions.{new_link}
use exn_gs.Simulator.Sessions.Streams.{pushed, serve, expected, serve-expected}
use exn_gs.Tests.Instances.{demo, demo-ReadsHeader, ask_hk}

abbrev pub told : Frame
told = record { type = packet_rx; payload = pack_packet_meta no_meta (codes "RX") }

-- The daemon and the device are there; HK is enabled by a typed command and the timer fires twice.
abbrev pub events : List Event
events =
    connection true (codes "127.0.0.1:7777")
    ∷ frame (record { type = link_state; payload = pack_string (codes "CONNECTED") })
    ∷ frame told
    ∷ key (character b'c') []
    ∷ (typing [] (codes "hk_enable")
        ++ key return []
          ∷ timer false
          ∷ timer false
          ∷ connection false (codes "connection lost")
          ∷ timer false
          ∷ [])

run-rows_example :
    ((run demo new_app events).0.rx_rows ≡ last 5000 (rx_history events))
    × ((run demo new_app events).0.tx_rows ≡ last 5000 (tx_history events))
run-rows_example = run-rows demo events

run-requests_example :
    let r = run demo new_app events in IsNumbered demo 1 (sent r.1) r.0.tc_sequence
run-requests_example = run-requests demo events

abbrev pub demo_time : ℕ → LocalTime
demo_time s = record { hour = s / 3600 % 24; min = s / 60 % 60; sec = s % 60 }

pub demo_time-IsLocalTime : (s : ℕ) → IsLocalTime (demo_time s)
demo_time-IsLocalTime s = record { hour = omega arith; min = omega arith; sec = omega arith }

abbrev pub row : PacketRow
row = record { m = no_meta; desc = codes "RX" }

pub row-IsShowable : IsShowable row
row-IsShowable = record {
  meta = record { ts_ns = omega arith; apid = omega arith; seq = omega arith; len = omega arith };
  ver = omega arith;
  typ = omega arith;
  shf = omega arith;
  seqf = omega arith;
  svc = omega arith;
  ssvc = omega arith;
  desc = (refl, (refl, tt));
}

preformatted_block-render_example :
    let desc_w = desc_width 60 in
    let lines =
      heading desc_w ∷ rule desc_w ∷ shown_lines demo_time 5 desc_w (reverse (row ∷ [])) in
    (preformatted_block (render_packet_table_text demo_time (row ∷ []) 5 60) ≡ lines ++ [] ∷ [])
    × All (IsTableLine (53 + desc_w)) lines
preformatted_block-render_example =
    preformatted_block-render demo_time demo_time-IsLocalTime (row ∷ []) 5 60 (row-IsShowable, tt)

-- The first client is lost within a packet; the second sends one in two pieces.
abbrev clients : List (List (List ℕ) × Text)
clients =
    ((25 ∷ 0 ∷ []) ∷ [], codes "End of file")
    ∷ (take 4 ask_hk ∷ (0 ∷ 4 ∷ 32 ∷ 3 ∷ 27 ∷ 0 ∷ 16 ∷ []) ∷ [], codes "End of file")
    ∷ []

serve-expected_example : pushed (serve demo 5 new_link clients).1 ≡ expected demo 5 clients
serve-expected_example = serve-expected demo 5 clients demo-ReadsHeader
