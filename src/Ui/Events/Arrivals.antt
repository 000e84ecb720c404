-- ===== src/Ui/Events/Arrivals.antt =====
-- ui/src/ipc_client.cpp and ui/src/ui_app.cpp together: from the bytes of the daemon to the tables.
use exn_gs.App.{make_packet_frame}
use exn_gs.Protocol.Bytes.{append_u16, append_u32, append_u64}
use exn_gs.Protocol.Strings.{IsMeta, unpack_packet_meta-pack}
use mathlib.Core.List.{flatten, map}
use exn_gs.Common.{
  ℕ, ◌≡◌, refl, ap, ◌∙◌, List, [], ◌∷◌, ◌++◌, Text, All, Bool-cases, inl, inr, append_assoc, ◌<◌,
  ◌^◌, ◌%◌, arith, length, take,
}
use exn_gs.Protocol.{Frame, packet_rx, type_code, of_code, pack_packet_meta}
use exn_gs.Protocol.Stream.{receive, Received}
use exn_gs.Protocol.Stream.Chunks.{encode_all, IsWellFormed, receive_all-encode_all}
use exn_gs.SpacePacket.Library.{Pack}
use exn_gs.IpcClient.{
  IpcClient, Effect, resolves, connects, reads, waits, undefined, posts, writes, connection_state,
  frame_arrives, new_client, arrive_all, on_read,
}
use exn_gs.IpcClient.Delivery.{read_all, arrived, read_all-arrived, arrived-arrive_all}
use exn_gs.Ui.{new_app, PacketRow}
use exn_gs.Ui.Events.{Event, connection, frame, run}
use exn_gs.Ui.Events.History.{row_of, rx_history, run-rows}
use exn_gs.State.Ring.{last}

-- The callbacks that the client makes.
abbrev pub callbacks : List Effect → List Event
callbacks [] = []
callbacks (frame_arrives f ∷ es) = frame f ∷ callbacks es
callbacks (connection_state connected detail ∷ es) = connection connected detail ∷ callbacks es
callbacks (resolves ∷ es) = callbacks es
callbacks (connects ∷ es) = callbacks es
callbacks (reads ∷ es) = callbacks es
callbacks (waits ∷ es) = callbacks es
callbacks (undefined ∷ es) = callbacks es
callbacks (posts bytes ∷ es) = callbacks es
callbacks (writes bytes ∷ es) = callbacks es

callbacks-arrive_all :
    (fs : List Frame) (es : List Effect)
    → callbacks (arrive_all fs ++ es) ≡ map frame fs ++ callbacks es
callbacks-arrive_all [] es = refl
callbacks-arrive_all (f ∷ fs) es = ap (λ (l : List Event). frame f ∷ l) (callbacks-arrive_all fs es)

map-append : (fs gs : List Frame) → map frame (fs ++ gs) ≡ map frame fs ++ map frame gs
map-append [] gs = refl
map-append (f ∷ fs) gs = ap (λ (l : List Event). frame f ∷ l) (map-append fs gs)

callbacks-read_all :
    (c : IpcClient) (chunks : List (List ℕ))
    → callbacks (read_all c chunks).1 ≡ map frame (arrived (read_all c chunks).1)
unfolding on_read
callbacks-read_all c [] = refl
callbacks-read_all c (chunk ∷ chunks) =
    let r = receive c.rxbuf chunk in
    let c' = record c { rxbuf = r.rxbuf } in
    let more = (read_all c' chunks).1 in
    let ih = callbacks-read_all c' chunks in
    elim (Bool-cases r.broken) [
      | inl e ↦
          rw
            (
              e,
              append_assoc (arrive_all r.frames) (undefined ∷ []) more,
              callbacks-arrive_all r.frames (undefined ∷ more),
              arrived-arrive_all r.frames (undefined ∷ more),
              map-append r.frames (arrived more),
              ih,
            )
            refl
      | inr e ↦
          rw
            (
              e,
              append_assoc (arrive_all r.frames) (reads ∷ []) more,
              callbacks-arrive_all r.frames (reads ∷ more),
              arrived-arrive_all r.frames (reads ∷ more),
              map-append r.frames (arrived more),
              ih,
            )
            refl
    ]

-- What the daemon sends for each packet that it has received.
abbrev pub notifications : List PacketRow → List Frame
notifications [] = []
notifications (row ∷ rows) = make_packet_frame packet_rx row.m row.desc ∷ notifications rows

abbrev pub IsNotified : PacketRow → Type 0
IsNotified row = IsMeta row.m × (length row.desc < 2 ^ 16)

take_all : (s : Text) → take (length s) s ≡ s
take_all [] = refl
take_all (c ∷ cs) = ap (λ (t : Text). c ∷ t) (take_all cs)

row_of-pack :
    (row : PacketRow) → IsNotified row → row_of (pack_packet_meta row.m row.desc) ≡ row ∷ []
row_of-pack row (m, fits) =
    let size : length row.desc % 2 ^ 16 ≡ length row.desc = omega arith in
    rw (unpack_packet_meta-pack row.m row.desc m, size, take_all row.desc, row_of) refl

rx_history-notifications :
    (rows : List PacketRow)
    → All IsNotified rows
    → rx_history (map frame (notifications rows)) ≡ rows
unfolding make_packet_frame
rx_history-notifications [] h = refl
rx_history-notifications (row ∷ rows) h =
    rw (row_of-pack row h.0, rx_history-notifications rows h.1) refl

notifications-IsWellFormed :
    (rows : List PacketRow) → All IsNotified rows → All IsWellFormed (notifications rows)
unfolding make_packet_frame type_code of_code pack_packet_meta append_u16 append_u64 append_u32
notifications-IsWellFormed [] h = tt
notifications-IsWellFormed (row ∷ rows) h =
    (((omega arith, refl), omega (arith, h.0.1)), notifications-IsWellFormed rows h.1)

-- However the notifications of the daemon are cut into reads, the interface's table shows the packets: the
-- last 5000, in order, with all their fields and descriptions. The fields are in the ranges of their C++
-- types, and a description is shorter than 64 KiB.
pub notifications-shown :
    (pack : Pack) (host : Text) (port : ℕ) (rows : List PacketRow) (chunks : List (List ℕ))
    → All IsNotified rows
    → flatten chunks ≡ encode_all (notifications rows)
    → (run pack new_app (callbacks (read_all (new_client host port) chunks).1)).0.rx_rows
      ≡ last 5000 rows
notifications-shown pack host port rows chunks h e =
    let c = new_client host port in
    let r =
      receive_all-encode_all (notifications rows) chunks (notifications-IsWellFormed rows h) e in
    let heard =
      read_all-arrived c chunks (ap (λ (x : Received). x.broken) r)
      ∙ ap (λ (x : Received). x.frames) r in
    let called = callbacks-read_all c chunks ∙ ap (map frame) heard in
    rw called (
      (run-rows pack (map frame (notifications rows))).0
      ∙ ap (last 5000) (rx_history-notifications rows h))
