-- ===== src/Uplink.antt =====
-- ui/src/ui_app.cpp, ui/src/ipc_client.cpp, daemon/src/ipc_server.cpp, daemon/src/app.cpp,
-- daemon/src/serial_link.cpp and sim/src/main.cpp: a request on its way from the interface to the on-board
-- computer.
use mathlib.Core.List.{flatten}
use mathlib.Core.Path.{subst}
use exn_gs.Common.{
  ℕ, ◌+◌, ◌%◌, ◌^◌, ◌≤◌, ◌<◌, ◌≡◌, refl, ap, sym, ◌∙◌, arith, Bool, true, List, [], ◌∷◌, ◌++◌, some,
  Text, codes, drop, take, length-take, ◌*◌, append-nil, append-emptied, inl, inr, if◌then◌else◌,
}
use exn_gs.Protocol.{Frame, packet_send, packet_tx}
use exn_gs.SpacePacket.{exn_tm_tailoring, Built, decode_meta}
use exn_gs.SpacePacket.Library.{Pack}
use exn_gs.SpacePacket.Laws.{IsWhole, Documented, DocumentedTm}
use exn_gs.Framer.{Framer, round, new_framer, push_all}
use exn_gs.Framer.Chunks.{push_all-flatten}
use exn_gs.Framer.Packets.{push_all-packets}
use exn_gs.Mission.{apid_obc, svc_hk, sub_sys_hk_request, pusid_gs, ack_read_default}
use exn_gs.SpacePacket.RoundTrip.{build_pus_c_tc_lem}
use exn_gs.App.{
  Daemon, operation, broadcast, print_packet, make_packet_frame, framer_size, on_frame,
}
use exn_gs.Ipc.{new_session}
use exn_gs.Ipc.Delivery.{read_all, delivered}
use exn_gs.IpcClient.Order as Client
use exn_gs.IpcClient.Order.{open_client}
use exn_gs.SerialLink.Fifo as Link
use exn_gs.SerialLink.Fifo.{opened_with, run-handed_over}
use exn_gs.Ui
use exn_gs.Ui.{UiApp, send_system_hk, sends_packet}
use exn_gs.Ui.Outgoing.{client_calls, posted_by, client_calls-delivered}
use exn_gs.App.Whole.{framer_size-ReadsHeader, framer_size-IsPacket, decoded-IsWhole}
use exn_gs.App.Packets.{route_packet_lem}
use exn_gs.SerialLink.{PortAnswer, posted}
use exn_gs.Simulator.{TcMessage, accept_tc, build_tm, dispatch, make_system_hk_report}
use exn_gs.Simulator.Answers.{hk_packet, send_system_hk-dispatch, numbered-two}
use exn_gs.Simulator.Sessions.{new_link}
use exn_gs.Simulator.Sessions.Streams.{pushed, serve, accepted, serve-expected}

module _ (pack : Pack) (documented : Documented pack) where
  -- A whole packet, cut in any way, is the one packet that the simulator's client sends.
  served :
      (now : ℕ) (cuts : List (List ℕ)) (message : Text) (bytes : List ℕ) (tc : TcMessage)
      → IsWhole pack bytes
      → flatten cuts ≡ bytes
      → accept_tc pack now bytes ≡ some tc
      → pushed (serve pack now new_link ((cuts, message) ∷ [])).1 ≡ tc ∷ []
  unfolding round flatten
  served now cuts message bytes tc whole cut taken =
      let header = framer_size-ReadsHeader pack documented in
      let framed : push_all (framer_size pack) new_framer cuts ≡ (new_framer, bytes ∷ []) =
        push_all-packets (framer_size pack) header (bytes ∷ []) cuts []
          (framer_size-IsPacket pack bytes whole, tt) refl
          (cut ∙ sym (append-nil (bytes ++ []) ∙ append-nil bytes)) in
      serve-expected pack now ((cuts, message) ∷ []) header
      ∙ (ap (λ (r : Framer × List (List ℕ)). accepted pack now r.1 ++ [])
            (sym (push_all-flatten (framer_size pack) header new_framer cuts) ∙ framed)
          ∙ rw (taken, accepted) refl)

  hk_packet-IsWhole :
      (seq : ℕ)
      → seq < 2 ^ 14
      → pack.tc_header_size + 2 ≤ 2 ^ 16
      → IsWhole pack (hk_packet pack seq)
  hk_packet-IsWhole seq small room =
      let (bytes, built, whole, read) =
        build_pus_c_tc_lem pack documented apid_obc seq svc_hk sub_sys_hk_request pusid_gs
          ack_read_default [] (omega arith) small (omega arith) (omega arith) in
      subst (IsWhole pack) (sym (ap (λ (b : Built). b.packet) built)) whole

  -- What the daemon does with a whole packet for an open link.
  routed :
      (now later : ℕ) (answer : PortAnswer) (d : Daemon) (session : ℕ) (bytes : List ℕ)
      → IsWhole pack bytes
      → d.link.opened ≡ true
      → let m = (decode_meta pack now bytes).meta in
        (on_frame pack now later answer d session
          (record { type = packet_send; payload = bytes })).1
        ≡ operation (posted bytes)
          ∷ broadcast (make_packet_frame packet_tx m (codes "TX"))
          ∷ (if d.verbose then print_packet (codes "[TX->LINK]") m (codes "TX") ∷ [] else [])
  unfolding on_frame
  routed now later answer d session [] whole opened = absurd (omega (arith, whole.1))
  routed now later answer d session (b ∷ rest) whole opened =
      elim (route_packet_lem pack now later d session b rest) [
        | inl (refused, e) ↦ let fine = decoded-IsWhole pack now (b ∷ rest) whole in cc
        | inr (inl (fine, closed, e)) ↦ cc
        | inr (inr (fine, open_link, same, e)) ↦ e
      ]

module _ (pack : Pack) (documented : Documented pack) (reports : DocumentedTm pack documented) where
  -- The housekeeping request on its way, while every connection stands. The interface hands it to its
  -- client; however the client's lambdas, reads and writes come and the network cuts the bytes, the
  -- daemon's handler is given it as it was built; the daemon hands it to the device link and tells
  -- every client; however the link's lambdas, reads and writes come and the bytes are cut, the
  -- simulator takes this one telecommand, and its dispatcher queues two reports, the acceptance and
  -- then the system housekeeping report, each a whole packet, under two consecutive numbers.
  -- (CCSDSPack does what it documents, also for reports, and its headers leave room in a packet; the
  -- three sequence counts have 14 bits; the simulator's clock is before 2 ^ 32 seconds; and nothing
  -- else is written by the client or to the device meanwhile.)
  pub send_system_hk-answered :
      (u : UiApp) (host : Text) (port : ℕ) (scheduled : Bool) (rx : List ℕ)
      (ui_events : List Client.Event) (ipc_chunks : List (List ℕ)) (now later session : ℕ)
      (answer : PortAnswer) (d : Daemon) (link_events : List Link.Event) (cuts : List (List ℕ))
      (message : Text) (clock : ℕ → ℕ) (tm_seq : ℕ)
      → u.tc_sequence < 2 ^ 14
      → tm_seq + 1 < 2 ^ 14
      → ((n : ℕ) → clock n < 2 ^ 32 * 1000000000)
      → pack.tc_header_size + 86 ≤ 2 ^ 16
      → pack.tm_header_size exn_tm_tailoring + 86 ≤ 2 ^ 16
      → Client.posted ui_events ≡ posted_by (client_calls (send_system_hk pack u).1)
      → drop 1 (Client.run (open_client host port scheduled rx []) ui_events).0.tx_queue ≡ []
      → flatten ipc_chunks
        ≡ flatten (Client.written (Client.run (open_client host port scheduled rx []) ui_events).1)
      → d.link.opened ≡ true
      → Link.handed_over link_events ≡ hk_packet pack u.tc_sequence ∷ []
      → drop 1 (Link.run (opened_with d.link []) link_events).0.tx_queue ≡ []
      → flatten cuts ≡ flatten (Link.written (Link.run (opened_with d.link []) link_events).1)
      → let packet = hk_packet pack u.tc_sequence in
        let request : Frame = record { type = packet_send; payload = packet } in
        let m = (decode_meta pack now packet).meta in
        (tc : TcMessage) × (delivered (read_all new_session ipc_chunks).1 ≡ request ∷ [])
        × ((on_frame pack now later answer d session request).1
            ≡ operation (posted packet)
              ∷ broadcast (make_packet_frame packet_tx m (codes "TX"))
              ∷ (if d.verbose then print_packet (codes "[TX->LINK]") m (codes "TX") ∷ [] else []))
        × (pushed (serve pack now new_link ((cuts, message) ∷ [])).1 ≡ tc ∷ [])
        × (let accepted = build_tm pack (clock tm_seq) apid_obc tm_seq 1 1 16 (take 4 packet) in
            let answer =
              build_tm pack
                (clock (tm_seq + 1))
                apid_obc
                (tm_seq + 1)
                3
                129
                16
                (make_system_hk_report tc) in
            IsWhole pack accepted
            × IsWhole pack answer
            × (dispatch pack clock tm_seq tc ≡ ((tm_seq + 2) % 2 ^ 14, accepted ∷ answer ∷ [])))
  unfolding flatten
  send_system_hk-answered u host port scheduled rx ui_events ipc_chunks now later session answer d
        link_events cuts message clock tm_seq small short early room tm_room given begun cut opened
        handed link_begun link_cut =
      let packet = hk_packet pack u.tc_sequence in
      let whole = hk_packet-IsWhole pack documented u.tc_sequence small (omega arith) in
      let (tc, sent, taken, id, answered) =
        send_system_hk-dispatch pack documented clock u now tm_seq small (omega arith)
          (omega arith) in
      let (first, second, both) =
        numbered-two pack documented reports clock tm_seq (take 4 packet) tc
          (omega (arith, length-take 4 packet, whole.1)) id short early room tm_room in
      let handed_in : Client.posted ui_events
          ≡ posted_by (client_calls (sends_packet packet ∷ [])) =
        given ∙ ap (λ (os : List Ui.Output). posted_by (client_calls os)) sent in
      let r = Link.run (opened_with d.link []) link_events in
      let link_written : Link.written (Link.run (opened_with d.link []) link_events).1
          ≡ packet ∷ [] =
        append-emptied (Link.written r.1) (drop 1 r.0.tx_queue) (packet ∷ []) link_begun
          (run-handed_over d.link link_events ∙ handed) in
      (
        tc,
        client_calls-delivered host port scheduled rx (sends_packet packet ∷ []) ui_events
            ipc_chunks ((omega (arith, whole.2), tt)) handed_in begun cut,
        routed pack documented now later answer d session packet whole opened,
        served pack documented now cuts message packet tc whole
            (link_cut ∙ ap flatten link_written ∙ append-nil packet) taken,
        (first, second, answered ∙ ap (λ (l : List (List ℕ)). ((tm_seq + 2) % 2 ^ 14, l)) both),
      )
