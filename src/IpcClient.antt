-- ===== src/IpcClient.antt =====
-- ui/include/exn/ui/ipc_client.hpp and ui/src/ipc_client.cpp: the client's side of the IPC. Every
-- method and completion handler is a function to the new state and what it does outside, in order.
pub mod Delivery
pub mod Timer
pub mod Order
use exn_gs.Common.{
  ℕ, Bool, true, false, not, ◌&&◌, ◌||◌, List, [], ◌∷◌, ◌++◌, Option, none, some, Text, codes,
  to_string, if◌then◌else◌,
}
use exn_gs.Protocol.{command, packet_send, Frame, encode, pack_string}
use exn_gs.Protocol.Stream.{receive}

pub record IpcClient : Type 0 where
  pub host : Text
  pub port : ℕ
  pub is_open : Bool
  pub connected : Bool
  pub reconnect_scheduled : Bool
  pub rxbuf : List ℕ
  pub tx_queue : List (List ℕ)

-- `waits` starts the timer; `undefined` is a read from behind a buffer's end or `pop_front` on an
-- empty queue.
pub data Effect : Type 0 where
  resolves connects reads waits undefined : Effect
  posts writes : List ℕ → Effect
  connection_state : Bool → Text → Effect
  frame_arrives : Frame → Effect

abbrev pub Result : Type 0
Result = IpcClient × List Effect

abbrev pub new_client : Text → ℕ → IpcClient
new_client host port = record {
  host = host;
  port = port;
  is_open = false;
  connected = false;
  reconnect_scheduled = false;
  rxbuf = [];
  tx_queue = [];
}

unfoldable pub set_connected : IpcClient → Bool → Text → Result
set_connected c connected detail =
    if c.connected && connected
    then (c, [])
    else (record c { connected = connected }, connection_state connected detail ∷ [])

abbrev pub closed : IpcClient → IpcClient
closed c = record c { is_open = false; rxbuf = []; tx_queue = [] }

unfoldable pub do_connect : IpcClient → Result
do_connect c = (record (closed c) { reconnect_scheduled = false }, resolves ∷ [])

unfoldable pub schedule_reconnect : IpcClient → Text → Result
unfolding set_connected
schedule_reconnect c reason =
    let (c', effects) = set_connected (closed c) false reason in
    if c'.reconnect_scheduled
    then (c', effects)
    else (record c' { reconnect_scheduled = true }, effects ++ waits ∷ [])

-- Completion handlers: `some message` is an error code.
unfoldable pub on_resolved : IpcClient → Option Text → Result
unfolding schedule_reconnect
on_resolved c (some message) = schedule_reconnect c (codes "resolve failed: " ++ message)
on_resolved c none = (c, connects ∷ [])

unfoldable pub on_connected : IpcClient → Option Text → Result
unfolding schedule_reconnect set_connected
on_connected c (some message) = schedule_reconnect c (codes "connect failed: " ++ message)
on_connected c none =
    let (c', effects) =
      set_connected (record c { is_open = true }) true (c.host ++ codes ":" ++ to_string c.port) in
    (c', effects ++ reads ∷ [])

abbrev pub arrive_all : List Frame → List Effect
arrive_all [] = []
arrive_all (f ∷ fs) = frame_arrives f ∷ arrive_all fs

unfoldable pub on_read : IpcClient → Option Text → List ℕ → Result
unfolding schedule_reconnect
on_read c (some message) bytes = schedule_reconnect c (codes "connection lost: " ++ message)
on_read c none bytes =
    let r = receive c.rxbuf bytes in
    (
      record c { rxbuf = r.rxbuf },
      arrive_all r.frames ++ (if r.broken then undefined ∷ [] else reads ∷ []),
    )

abbrev front_write : List (List ℕ) → List Effect
front_write [] = []
front_write (bytes ∷ queue) = writes bytes ∷ []

unfoldable pub do_write : IpcClient → Result
do_write c = (c, if c.connected && c.is_open then front_write c.tx_queue else [])

unfoldable pub on_written : IpcClient → Option Text → Result
unfolding schedule_reconnect do_write
on_written c (some message) = schedule_reconnect c (codes "write failed: " ++ message)
on_written c none = elim c.tx_queue [
  | [] ↦ (c, undefined ∷ [])
  | _ ∷ queue ↦ do_write (record c { tx_queue = queue })
]

-- The lambda that `send_frame` posts.
unfoldable pub run_posted : IpcClient → List ℕ → Result
unfolding do_write
run_posted c bytes =
    if not c.connected || not c.is_open
    then (c, [])
    else let queued = record c { tx_queue = c.tx_queue ++ bytes ∷ [] } in
      elim c.tx_queue [ [] ↦ do_write queued | _ ∷ _ ↦ (queued, []) ]

unfoldable pub on_timer : IpcClient → Option Text → Result
unfolding do_connect
on_timer c (some message) = (c, [])
on_timer c none = do_connect c

unfoldable pub send_frame : Frame → List Effect
send_frame f = posts (encode f) ∷ []

unfoldable pub send_command : Text → List Effect
unfolding send_frame
send_command cmd = send_frame (record { type = command; payload = pack_string cmd })

unfoldable pub send_packet : List ℕ → List Effect
unfolding send_frame
send_packet packet = send_frame (record { type = packet_send; payload = packet })
