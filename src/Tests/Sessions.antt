-- ===== src/Tests/Sessions.antt =====
-- Concrete IPC sessions and clients.
use mathlib.Core.List.{flatten}
use exn_gs.IpcClient.{new_client, do_connect}
use exn_gs.IpcClient.Timer.{
  World, resolved, dispatch_event, after, handles, Reach, here, next, IsTimed, do_connect-Reach,
}
use exn_gs.Common.{◌≡◌, refl, arith, List, [], ◌∷◌, ◌++◌, some, codes, ℕ, drop}
use exn_gs.Protocol.{command, hello, Frame, encode, type_code, of_code}
use exn_gs.Protocol.Bytes.{append_u16, append_u32}
use exn_gs.Protocol.Frames.{IsSendable}
use exn_gs.Protocol.Stream.Chunks.{encode_all}
use exn_gs.Ipc.{new_session}
use exn_gs.Ipc.Order.{
  Event, runs_posted, completes_write, run, posted, written, open_session, run-posted,
}
use exn_gs.Ipc.Delivery.{read_all, delivered, coded_requests, read_all-encode_all}

abbrev ping_frame : Frame
ping_frame = record { type = command; payload = 0 ∷ 0 ∷ 0 ∷ 1 ∷ b'P' ∷ [] }

abbrev greeting : Frame
greeting = record { type = hello; payload = [] }

ping_frame-IsSendable : IsSendable command
unfolding type_code of_code
ping_frame-IsSendable = (omega arith, refl)

greeting-IsSendable : IsSendable hello
unfolding type_code of_code
greeting-IsSendable = (omega arith, refl)

-- A Hello, then a Command, in two pieces.
abbrev arrivals : List (List ℕ)
arrivals = (0 ∷ 0 ∷ 0 ∷ 2 ∷ 0 ∷ 1 ∷ 0 ∷ 0 ∷ []) ∷ (0 ∷ 7 ∷ 0 ∷ 10 ∷ 0 ∷ 0 ∷ 0 ∷ 1 ∷ b'P' ∷ []) ∷ []

arrivals_lem : flatten arrivals ≡ encode_all (greeting ∷ ping_frame ∷ [])
unfolding encode flatten append_u16 append_u32 type_code
arrivals_lem = refl

read_all-encode_all_example :
    delivered (read_all new_session arrivals).1 ≡ coded_requests (greeting ∷ ping_frame ∷ [])
read_all-encode_all_example =
    read_all-encode_all (greeting ∷ ping_frame ∷ []) arrivals
      ((greeting-IsSendable, omega arith), ((ping_frame-IsSendable, omega arith), tt)) arrivals_lem

-- Two frames are posted before the first has been written.
abbrev sending : List Event
sending = runs_posted (1 ∷ []) ∷ runs_posted (2 ∷ []) ∷ completes_write ∷ runs_posted (3 ∷ []) ∷ []

run-posted_example :
    let r = run (open_session [] []) sending in written r.1 ++ drop 1 r.0.tx_queue ≡ posted sending
run-posted_example = run-posted [] sending

abbrev started_client : World
started_client = after 0 (do_connect (new_client (codes "127.0.0.1") 7777))

abbrev waiting_client : World
waiting_client =
    after started_client.timers
      (dispatch_event started_client.client (resolved (some (codes "Host not found"))))

refused : Reach started_client waiting_client
refused = next here (handles (resolved (some (codes "Host not found"))))

do_connect-Reach_example : IsTimed waiting_client
do_connect-Reach_example = do_connect-Reach (codes "127.0.0.1") 7777 waiting_client refused
