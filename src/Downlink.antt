-- ===== src/Downlink.antt =====
-- daemon/src/app.cpp, daemon/src/ipc_server.cpp, ui/src/ipc_client.cpp and ui/src/ui_app.cpp: the packets of
-- the device on their way to the interface's table.
pub mod Told
pub mod Fields
use mathlib.Core.List.{flatten}
use mathlib.Core.Path.{subst}
use exn_gs.Common.{
  length-replicate, ℕ, zero, suc, ◌+◌, ◌^◌, ◌≤◌, ◌<◌, ◌≡◌, ◌↔◌, ◌⊎◌, refl, ap, sym, ◌∙◌, arith,
  Bool, true, false, List, [], ◌∷◌, ◌++◌, Option, none, some, Text, codes, All, All-append,
  All-left, All-right, drop, take, length, length-append, replicate, append-nil, append_assoc,
  append-emptied, inl, inr, Bool-cases, Option-cases, map,
}
use exn_gs.Protocol.{Frame, PacketMeta, no_meta, packet_rx, encode}
use exn_gs.Protocol.Stream.Chunks.{encode_all}
use exn_gs.Protocol.Strings.{IsMeta}
use exn_gs.SpacePacket.{decode_meta, add_service, with_service, fill_primary_meta}
use exn_gs.SpacePacket.Library.{Pack, Primary, Answer, ok, err}
use exn_gs.SpacePacket.Laws.{IsWhole, Documented}
use exn_gs.Framer.{Framer, new_framer, round, stop, push_bytes, push_all}
use exn_gs.Framer.Packets.{IsPacket, push_all-packets}
use exn_gs.App.{
  Daemon, Output, send, broadcast, store, operation, print_packet, undefined, framer_size,
  on_packet, on_packets, on_bytes, record_of, make_packet_frame, and_then,
}
use exn_gs.App.Delivery.{on_reads, bytes_of, on_bytes-framer}
use exn_gs.App.Whole.{framer_size-ReadsHeader, framer_size-IsPacket, decoded-IsWhole}
use exn_gs.Ipc.Order as Session
use exn_gs.Ipc.Order.{open_session}
use exn_gs.IpcClient.{new_client}
use exn_gs.IpcClient.Delivery.{read_all}
use exn_gs.Ui.Events.{run}
use exn_gs.State.Ring.{last}
use exn_gs.Ui.{PacketRow, new_app}
use exn_gs.Ui.Events.Arrivals.{notifications, IsNotified, callbacks, notifications-shown}
use exn_gs.Downlink.Told.{told, clocks, Among, rows_at, on_reads-IsTold}
use exn_gs.Downlink.Fields.{rows_at-IsNotified}

flatten-map-encode : (fs : List Frame) → flatten (map encode fs) ≡ encode_all fs
unfolding flatten
flatten-map-encode [] = refl
flatten-map-encode (f ∷ fs) = ap (λ (l : List ℕ). encode f ++ l) (flatten-map-encode fs)

module _ (pack : Pack) where
  whole_packets :
      (ps : List (List ℕ)) → All (IsWhole pack) ps → All (IsPacket (framer_size pack)) ps
  whole_packets [] w = tt
  whole_packets (p ∷ ps) w = (framer_size-IsPacket pack p w.0, whole_packets ps w.1)

  -- The packets of the device on their way, while every connection stands: however the bytes of whole
  -- packets are cut into reads, the lambdas and writes of the client's session come, and the network
  -- cuts what it has written, the interface shows these packets, each as the daemon inspected it at
  -- one of its reads, in their order: the last 5000 of them. (CCSDSPack does what it documents, the
  -- clock fits 64 bits, and the session is posted what the daemon broadcasts, all of which has been
  -- written.)
  pub on_reads-shown :
      (d : Daemon) (rs : List (ℕ × ℕ × List ℕ)) (packets : List (List ℕ)) (rx : List ℕ)
      (es : List Session.Event) (host : Text) (port : ℕ) (chunks : List (List ℕ))
      → Documented pack
      → All (IsWhole pack) packets
      → All (λ (c : ℕ). c < 2 ^ 64) (clocks rs)
      → d.framer ≡ new_framer
      → flatten (bytes_of pack rs) ≡ flatten packets
      → Session.posted es ≡ map encode (told (on_reads pack d rs).1)
      → drop 1 (Session.run (open_session rx []) es).0.tx_queue ≡ []
      → flatten chunks ≡ flatten (Session.written (Session.run (open_session rx []) es).1)
      → (nows : List ℕ) × (length nows ≡ length packets)
        × All (Among (clocks rs)) nows
        × ((run pack new_app (callbacks (read_all (new_client host port) chunks).1)).0.rx_rows
            ≡ last 5000 (rows_at pack nows packets))
  unfolding round
  on_reads-shown d rs packets rx es host port chunks documented w early fresh cut given begun sent =
      let framed : (push_all (framer_size pack) d.framer (bytes_of pack rs)).1 ≡ packets =
        ap (λ (f : Framer). (push_all (framer_size pack) f (bytes_of pack rs)).1) fresh
        ∙ ap (λ (r : Framer × List (List ℕ)). r.1)
            (push_all-packets (framer_size pack) (framer_size-ReadsHeader pack documented) packets
              (bytes_of pack rs) [] (whole_packets packets w) refl
              (cut ∙ sym (append-nil (flatten packets)))) in
      let (nows, same, among, heard) =
        on_reads-IsTold pack d rs (subst (All (IsWhole pack)) (sym framed) w) in
      let r = Session.run (open_session rx []) es in
      let written : Session.written r.1 ≡ map encode (told (on_reads pack d rs).1) =
        append-emptied (Session.written r.1) (drop 1 r.0.tx_queue) _ begun
          (Session.run-posted rx es ∙ given) in
      let shown = rows_at pack nows packets in
      let frames : told (on_reads pack d rs).1 ≡ notifications shown =
        heard ∙ ap (λ (ps : List (List ℕ)). notifications (rows_at pack nows ps)) framed in
      (
        nows,
        same ∙ ap length framed,
        among,
        notifications-shown pack host port shown chunks
            (rows_at-IsNotified pack (clocks rs) nows packets documented early among w)
            (sent
              ∙ ap flatten (written ∙ ap (map encode) frames)
              ∙ flatten-map-encode (notifications shown)),
      )
