-- ===== src/Ui/Outgoing.antt =====
-- ui/src/ui_app.cpp, ui/src/ipc_client.cpp and daemon/src/ipc_server.cpp: what the interface hands to the
-- client, as the daemon's handler is given it.
use mathlib.Core.List.{flatten}
use exn_gs.Common.{
  ℕ, ◌+◌, ◌^◌, ◌<◌, ◌≡◌, refl, ap, ◌∙◌, arith, Bool, List, [], ◌∷◌, ◌++◌, Text, All, drop, length,
  append-emptied,
}
use exn_gs.Protocol.{Frame, command, packet_send, encode, pack_string, type_code, of_code}
use exn_gs.Protocol.Stream.Chunks.{encode_all, IsWellFormed}
use exn_gs.Ipc.{new_session, requests, is_request}
use exn_gs.Ipc.Delivery.{read_all, delivered, read_all-requests}
use exn_gs.IpcClient.{
  Effect, resolves, connects, reads, waits, undefined, posts, writes, connection_state,
  frame_arrives, send_frame, send_command, send_packet,
}
use exn_gs.IpcClient.Order.{Event, open_client, run, posted, written, run-posted}
use exn_gs.Ui.{Output, redraws, queues_hk, arms, exits, sends_packet, sends_command}

-- The client's calls among what the interface does.
abbrev pub client_calls : List Output → List Effect
client_calls [] = []
client_calls (sends_packet packet ∷ os) = send_packet packet ++ client_calls os
client_calls (sends_command text ∷ os) = send_command text ++ client_calls os
client_calls (redraws ∷ os) = client_calls os
client_calls (queues_hk ∷ os) = client_calls os
client_calls (arms ∷ os) = client_calls os
client_calls (exits ∷ os) = client_calls os
client_calls (Output.undefined ∷ os) = client_calls os

abbrev pub posted_by : List Effect → List (List ℕ)
posted_by [] = []
posted_by (posts bytes ∷ es) = bytes ∷ posted_by es
posted_by (writes bytes ∷ es) = posted_by es
posted_by (resolves ∷ es) = posted_by es
posted_by (connects ∷ es) = posted_by es
posted_by (reads ∷ es) = posted_by es
posted_by (waits ∷ es) = posted_by es
posted_by (undefined ∷ es) = posted_by es
posted_by (connection_state connected detail ∷ es) = posted_by es
posted_by (frame_arrives f ∷ es) = posted_by es

-- What the daemon is asked for.
abbrev pub asked : List Output → List Frame
asked [] = []
asked (sends_packet packet ∷ os) = record { type = packet_send; payload = packet } ∷ asked os
asked (sends_command text ∷ os) = record { type = command; payload = pack_string text } ∷ asked os
asked (redraws ∷ os) = asked os
asked (queues_hk ∷ os) = asked os
asked (arms ∷ os) = asked os
asked (exits ∷ os) = asked os
asked (Output.undefined ∷ os) = asked os

-- A payload fits the 32 bits of a frame's length.
abbrev pub FitsFrame : Frame → Type 0
FitsFrame f = 6 + length f.payload < 2 ^ 32

flatten-posted_by :
    (os : List Output) → flatten (posted_by (client_calls os)) ≡ encode_all (asked os)
unfolding send_packet send_command send_frame flatten
flatten-posted_by [] = refl
flatten-posted_by (sends_packet packet ∷ os) =
    ap (λ (l : List ℕ). encode (record { type = packet_send; payload = packet }) ++ l)
      (flatten-posted_by os)
flatten-posted_by (sends_command text ∷ os) =
    ap (λ (l : List ℕ). encode (record { type = command; payload = pack_string text }) ++ l)
      (flatten-posted_by os)
flatten-posted_by (redraws ∷ os) = flatten-posted_by os
flatten-posted_by (queues_hk ∷ os) = flatten-posted_by os
flatten-posted_by (arms ∷ os) = flatten-posted_by os
flatten-posted_by (exits ∷ os) = flatten-posted_by os
flatten-posted_by (Output.undefined ∷ os) = flatten-posted_by os

-- Each is a request, of a type that the daemon knows.
asked-IsWellFormed :
    (os : List Output)
    → All FitsFrame (asked os)
    → All IsWellFormed (asked os) × (requests (asked os) ≡ asked os)
unfolding type_code of_code is_request
asked-IsWellFormed [] h = (tt, refl)
asked-IsWellFormed (sends_packet packet ∷ os) h =
    let (w, same) = asked-IsWellFormed os h.1 in
    (
      (((omega arith, refl), h.0), w),
      ap (λ (l : List Frame). record { type = packet_send; payload = packet } ∷ l) same,
    )
asked-IsWellFormed (sends_command text ∷ os) h =
    let (w, same) = asked-IsWellFormed os h.1 in
    (
      (((omega arith, refl), h.0), w),
      ap (λ (l : List Frame). record { type = command; payload = pack_string text } ∷ l) same,
    )
asked-IsWellFormed (redraws ∷ os) h = asked-IsWellFormed os h
asked-IsWellFormed (queues_hk ∷ os) h = asked-IsWellFormed os h
asked-IsWellFormed (arms ∷ os) h = asked-IsWellFormed os h
asked-IsWellFormed (exits ∷ os) h = asked-IsWellFormed os h
asked-IsWellFormed (Output.undefined ∷ os) h = asked-IsWellFormed os h

-- While the interface's client is connected: the packets and commands that are handed to it reach the
-- daemon's handler, each once, in their order and unaltered, in whatever order the lambdas run and
-- the reads and writes complete, and however the network cuts what has been written, once nothing
-- waits behind the front of the queue. (Each fits the 32 bits of a frame's length.)
pub client_calls-delivered :
    (host : Text) (port : ℕ) (scheduled : Bool) (rx : List ℕ) (os : List Output) (es : List Event)
    (chunks : List (List ℕ))
    → All FitsFrame (asked os)
    → posted es ≡ posted_by (client_calls os)
    → drop 1 (run (open_client host port scheduled rx []) es).0.tx_queue ≡ []
    → flatten chunks ≡ flatten (written (run (open_client host port scheduled rx []) es).1)
    → delivered (read_all new_session chunks).1 ≡ asked os
client_calls-delivered host port scheduled rx os es chunks fits given begun cut =
    let r = run (open_client host port scheduled rx []) es in
    let all_written : written r.1 ≡ posted es =
      append-emptied (written r.1) (drop 1 r.0.tx_queue) (posted es) begun
        (run-posted host port scheduled rx [] es) in
    let (w, same) = asked-IsWellFormed os fits in
    read_all-requests (asked os) chunks w
      (cut ∙ ap flatten (all_written ∙ given) ∙ flatten-posted_by os)
    ∙ same
