-- ===== src/Tests/Downlinks.antt =====
-- Concrete packets of the device on their way to the interface.
use mathlib.Core.List.{flatten}
use exn_gs.Common.{ℕ, ◌≡◌, refl, arith, true, List, [], ◌∷◌, codes, length, All}
use exn_gs.Protocol.{Frame, packet_rx, encode}
use exn_gs.SpacePacket.{decode_meta}
use exn_gs.SpacePacket.Laws.{no_contents, IsWhole}
use exn_gs.Framer.{push_bytes, run_rounds, frame_loop, round}
use exn_gs.Ipc.{on_written, run_posted}
use exn_gs.App.{make_packet_frame, on_bytes, on_packets, framer_size, on_packet}
use exn_gs.App.Events.{new_daemon}
use exn_gs.Ipc.Order.{runs_posted, completes_write}
use exn_gs.IpcClient.{new_client}
use exn_gs.IpcClient.Delivery.{read_all}
use exn_gs.State.Ring.{last}
use exn_gs.Ui.{new_app}
use exn_gs.Ui.Events.{run}
use exn_gs.Ui.Events.Arrivals.{callbacks}
use exn_gs.Downlink.{on_reads-shown}
use exn_gs.Downlink.Told.{clocks, Among, rows_at}
use exn_gs.Tests.Recorder.{recorder, recorder-Documented, primary_of}
use exn_gs.Tests.Link.{opened_link}

-- Ten words: the sixth is the size.
abbrev packet : List ℕ
packet = 0 ∷ 256 ∷ 3 ∷ 7 ∷ 0 ∷ 10 ∷ 3 ∷ 128 ∷ 16 ∷ 8 ∷ []

packet-IsWhole : IsWhole recorder packet
packet-IsWhole = (refl, omega arith, omega arith, (primary_of no_contents, refl))

-- One packet in two reads.
abbrev device_reads : List (ℕ × ℕ × List ℕ)
device_reads = (5, 6, 0 ∷ 256 ∷ 3 ∷ []) ∷ (7, 8, 7 ∷ 0 ∷ 10 ∷ 3 ∷ 128 ∷ 16 ∷ 8 ∷ []) ∷ []

abbrev told_frame : Frame
told_frame = make_packet_frame packet_rx (decode_meta recorder 7 packet).meta (codes "RX")

on_reads-shown_example :
    (nows : List ℕ) × (length nows ≡ 1)
    × All (Among (clocks device_reads)) nows
    × ((run recorder new_app (
          callbacks
            (read_all (new_client (codes "::1") 7777) (encode told_frame ∷ [])).1)).0.rx_rows
        ≡ last 5000 (rows_at recorder nows (packet ∷ [])))
unfolding flatten on_bytes on_packets push_bytes run_rounds frame_loop round framer_size on_packet
    decode_meta on_written run_posted
on_reads-shown_example =
    on_reads-shown recorder (new_daemon recorder opened_link true) device_reads (packet ∷ []) []
      (runs_posted (encode told_frame) ∷ completes_write ∷ []) (codes "::1") 7777
      (encode told_frame ∷ []) recorder-Documented (packet-IsWhole, tt)
      (omega arith, (omega arith, tt)) refl refl refl refl refl
