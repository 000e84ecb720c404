-- ===== src/Tests/Daemons.antt =====
-- Concrete runs of the daemon.
use mathlib.Core.List.{flatten}
use exn_gs.Framer.{round, stop}
use exn_gs.App.Delivery.{bytes_of, stored, on_reads, on_reads-packets}
use exn_gs.Common.{map, List, ℕ, ◌≡◌, refl, arith, true, false, List, [], ◌∷◌, ◌++◌, some, codes}
use exn_gs.Protocol.{command}
use exn_gs.Framer.Packets.{IsPacket}
use exn_gs.SpacePacket.{decode_meta}
use exn_gs.SerialLink.{read}
use exn_gs.App.{Daemon, framer_size}
use exn_gs.App.Events.{
  Event, frame_arrives, client_connects, operation_completes, new_daemon, boot, run_events,
}
use exn_gs.App.Invariant.{IsShown, run_events-IsShown}
use exn_gs.App.Routing.{Sending, packet_of, kept, is_valid, IsRouted, run_sends, run_sends-IsRouted}
use exn_gs.Tests.Instances.{demo, demo-ReadsHeader, ask_hk}
use exn_gs.Tests.Link.{closed_link, opened_link, port_opens}

-- A client connects, asks for STATUS, and a read of the link fails.
abbrev events : List (ℕ × ℕ × Event)
events =
    (1, 1, client_connects 7)
    ∷ (
      2,
      2,
      frame_arrives port_opens 7
          (record { type = command; payload = 0 ∷ 0 ∷ 0 ∷ 6 ∷ codes "STATUS" }),
    )
    ∷ (3, 3, operation_completes (read 1) (record { ec = some (codes "End of file"); bytes = [] }))
    ∷ []

run_events-IsShown_example :
    let d = run_events demo (boot demo 0 0 port_opens closed_link false).0 events in
    IsShown d × (d.state.snap.framing_errors ≡ 0)
run_events-IsShown_example = run_events-IsShown demo 0 0 port_opens closed_link false events refl

abbrev pub open_daemon : Daemon
open_daemon = new_daemon demo opened_link true

ask_hk-framed : IsPacket (framer_size demo) ask_hk
unfolding framer_size
ask_hk-framed = (refl, omega arith, omega arith)

-- A packet, and one that is too short for its header.
abbrev client_packets : List Sending
client_packets =
    record {
      now = 5;
      later = 6;
      answer = port_opens;
      session = 7;
      first = 25;
      rest = 0 ∷ 192 ∷ 1 ∷ 0 ∷ 4 ∷ 32 ∷ 3 ∷ 27 ∷ 0 ∷ 16 ∷ [];
    }
    ∷ record { now = 8; later = 9; answer = port_opens; session = 2; first = 25; rest = 0 ∷ [] }
    ∷ []

run_sends-IsRouted_example :
    IsRouted demo open_daemon true client_packets (run_sends demo open_daemon client_packets)
run_sends-IsRouted_example = run_sends-IsRouted demo open_daemon client_packets

kept-client_packets : map packet_of (kept (is_valid demo) client_packets) ≡ ask_hk ∷ []
unfolding decode_meta
kept-client_packets = refl

-- Two packets and the beginning of a third, in two reads.
abbrev device_reads : List (ℕ × ℕ × List ℕ)
device_reads =
    (5, 6, ask_hk ++ 25 ∷ 0 ∷ 192 ∷ 1 ∷ 0 ∷ 4 ∷ 32 ∷ [])
    ∷ (7, 8, 3 ∷ 27 ∷ 0 ∷ 16 ∷ 25 ∷ 0 ∷ [])
    ∷ []

device_reads_lem :
    flatten (bytes_of demo device_reads) ≡ flatten (ask_hk ∷ ask_hk ∷ []) ++ 25 ∷ 0 ∷ []
unfolding flatten
device_reads_lem = refl

third_begins : round (framer_size demo) (25 ∷ 0 ∷ []) ≡ stop
unfolding round
third_begins = refl

on_reads-packets_example : stored (on_reads demo open_daemon device_reads).1 ≡ ask_hk ∷ ask_hk ∷ []
on_reads-packets_example =
    on_reads-packets demo open_daemon device_reads (ask_hk ∷ ask_hk ∷ []) (25 ∷ 0 ∷ [])
      demo-ReadsHeader refl (ask_hk-framed, (ask_hk-framed, tt)) third_begins device_reads_lem
