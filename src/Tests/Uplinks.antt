-- ===== src/Tests/Uplinks.antt =====
-- A concrete request on its way to the on-board computer.
use exn_gs.Common.{ℕ, ◌+◌, ◌%◌, ◌^◌, ◌≡◌, refl, arith, true, false, List, [], ◌∷◌, codes, take}
use exn_gs.Protocol.{Frame, command, packet_send, packet_tx, encode, pack_string}
use exn_gs.SerialLink
use exn_gs.SpacePacket.{decode_meta, build_pus_c_tc}
use exn_gs.App.{Daemon, operation, broadcast, make_packet_frame, on_frame}
use exn_gs.SerialLink.{posted, PortAnswer}
use exn_gs.Ipc.{new_session}
use exn_gs.Ipc.Delivery.{read_all, delivered}
use exn_gs.Protocol.{try_decode}
use exn_gs.Protocol.Bytes.{append_u32}
use exn_gs.Protocol.Stream.{receive, decode_all, decode_loop}
use exn_gs.IpcClient.{send_command, send_packet, on_written, on_read, run_posted}
use exn_gs.IpcClient.Order.{runs_posted, completes_write, completes_read}
use exn_gs.SerialLink.Fifo as Link
use exn_gs.Ui.{Output, new_app, redraws, sends_packet, sends_command, send_system_hk}
use exn_gs.Ui.Outgoing.{asked, client_calls-delivered}
use exn_gs.Simulator.{TcMessage, dispatch, make_system_hk_report}
use exn_gs.Simulator.Answers.{hk_packet}
use exn_gs.Simulator.Sessions.{new_link}
use exn_gs.Simulator.Sessions.Streams.{pushed, serve}
use exn_gs.App.Events.{new_daemon}
use exn_gs.Tests.Link.{opened_link, port_opens}
use exn_gs.Uplink.{send_system_hk-answered}
use exn_gs.Tests.Recorder.{recorder, recorder-Documented, recorder-DocumentedTm}
use exn_gs.SpacePacket.Laws.{IsWhole}
use exn_gs.Mission.{apid_obc}
use exn_gs.Simulator.{build_tm}
use exn_gs.Protocol.{PacketMeta}
use exn_gs.App.{print_packet}

abbrev outputs : List Output
outputs = redraws ∷ sends_command (codes "PING") ∷ sends_packet (1 ∷ 2 ∷ []) ∷ []

abbrev ping : List ℕ
ping = encode (record { type = command; payload = pack_string (codes "PING") })

abbrev two_bytes : List ℕ
two_bytes = encode (record { type = packet_send; payload = 1 ∷ 2 ∷ [] })

client_calls-delivered_example :
    delivered (read_all new_session (ping ∷ two_bytes ∷ [])).1 ≡ asked outputs
unfolding pack_string append_u32 send_command send_packet on_written on_read run_posted receive
    decode_all decode_loop try_decode
client_calls-delivered_example =
    client_calls-delivered (codes "127.0.0.1") 7777 false [] outputs
      (runs_posted ping ∷ runs_posted two_bytes ∷ completes_read (0 ∷ []) ∷ completes_write ∷ [])
      (ping ∷ two_bytes ∷ []) (omega arith, (omega arith, tt)) refl refl refl

abbrev daemon : Daemon
daemon = new_daemon recorder opened_link true

abbrev hk_meta : PacketMeta
hk_meta = (decode_meta recorder 5 (hk_packet recorder 1)).meta

abbrev request : Frame
request = record { type = packet_send; payload = hk_packet recorder 1 }

send_system_hk-answered_example :
    (tc : TcMessage) × (delivered (read_all new_session (encode request ∷ [])).1 ≡ request ∷ [])
    × ((on_frame recorder 5 6 port_opens daemon 7 request).1
        ≡ operation (posted (hk_packet recorder 1))
          ∷ broadcast (make_packet_frame packet_tx hk_meta (codes "TX"))
          ∷ print_packet (codes "[TX->LINK]") hk_meta (codes "TX")
          ∷ [])
    × (pushed (serve recorder 5 new_link ((hk_packet recorder 1 ∷ [], codes "End of file") ∷ [])).1
        ≡ tc ∷ [])
    × (let accepted = build_tm recorder 0 apid_obc 16382 1 1 16 (take 4 (hk_packet recorder 1)) in
        let answer = build_tm recorder 0 apid_obc 16383 3 129 16 (make_system_hk_report tc) in
        IsWhole recorder accepted
        × IsWhole recorder answer
        × (dispatch recorder (λ seq. 0) 16382 tc ≡ ((16382 + 2) % 2 ^ 14, accepted ∷ answer ∷ [])))
unfolding send_system_hk build_pus_c_tc send_packet run_posted SerialLink.run_posted
send_system_hk-answered_example =
    send_system_hk-answered recorder recorder-Documented recorder-DocumentedTm new_app
      (codes "127.0.0.1") 7777 false [] (runs_posted (encode request) ∷ []) (encode request ∷ []) 5
      6 7 port_opens daemon (Link.runs_posted (hk_packet recorder 1) ∷ [])
      (hk_packet recorder 1 ∷ []) (codes "End of file") (λ seq. 0) 16382 (omega arith) (omega arith)
      (λ n. omega arith) (omega arith) (omega arith) refl refl refl refl refl refl refl
