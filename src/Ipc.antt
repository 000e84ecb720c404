-- ===== src/Ipc.antt =====
-- daemon/include/exn/daemon/ipc_server.hpp and daemon/src/ipc_server.cpp: a client's session. Every
-- method, posted lambda and completion handler is a function to the new state and what it does
-- outside, in order.
pub mod Order
pub mod Delivery
pub mod Server
use exn_gs.Common.{
  ℕ, Bool, true, false, not, List, [], ◌∷◌, ◌++◌, Option, none, some, Text, codes, if◌then◌else◌,
}
use exn_gs.Protocol.{MsgType, hello, command, query, packet_send, Frame, encode, pack_string}
use exn_gs.Protocol.Stream.{receive}

-- `sock_.is_open()` is `is_open`.
pub record IpcSession : Type 0 where
  pub is_open : Bool
  pub rxbuf : List ℕ
  pub tx_queue : List (List ℕ)

-- The session that the acceptor makes of a socket.
abbrev pub new_session : IpcSession
new_session = record { is_open = true; rxbuf = []; tx_queue = [] }

-- `posts` puts a lambda with its bytes on the event loop, `reads` and `writes` begin an operation,
-- `delivers` calls `on_frame_`; `undefined` is a read from behind a buffer's end or `pop_front` on an
-- empty queue.
pub data Effect : Type 0 where
  posts writes : List ℕ → Effect
  delivers : Frame → Effect
  reads undefined : Effect

unfoldable pub send : Frame → List Effect
send f = posts (encode f) ∷ []

unfoldable pub start : IpcSession → IpcSession × List Effect
unfolding send
start s = (s, reads ∷ send (record { type = hello; payload = pack_string (codes "exn_gsd") }))

abbrev front_write : List (List ℕ) → List Effect
front_write [] = []
front_write (bytes ∷ queue) = writes bytes ∷ []

unfoldable pub do_write : IpcSession → IpcSession × List Effect
do_write s = (s, if s.is_open then front_write s.tx_queue else [])

-- The lambda that `send` posts.
unfoldable pub run_posted : IpcSession → List ℕ → IpcSession × List Effect
unfolding do_write
run_posted s bytes =
    if not s.is_open
    then (s, [])
    else let queued = record s { tx_queue = s.tx_queue ++ bytes ∷ [] } in
      elim s.tx_queue [ [] ↦ do_write queued | _ ∷ _ ↦ (queued, []) ]

abbrev pub closed : IpcSession → IpcSession
closed s = record s { is_open = false; tx_queue = [] }

-- `some message` is an error code.
unfoldable pub on_written : IpcSession → Option Text → IpcSession × List Effect
unfolding do_write
on_written s (some message) = (closed s, [])
on_written s none = elim s.tx_queue [
  | [] ↦ (s, undefined ∷ [])
  | _ ∷ queue ↦ do_write (record s { tx_queue = queue })
]

unfoldable pub is_request : MsgType → Bool
is_request command = true
is_request query = true
is_request packet_send = true
is_request _ = false

-- The frames that the daemon's handler is called with.
abbrev pub requests : List Frame → List Frame
requests [] = []
requests (f ∷ fs) = if is_request f.type then f ∷ requests fs else requests fs

abbrev pub deliver_all : List Frame → List Effect
deliver_all [] = []
deliver_all (f ∷ fs) = delivers f ∷ deliver_all fs

-- `handled` says whether `on_frame_` is set.
unfoldable pub on_read : Bool → IpcSession → Option Text → List ℕ → IpcSession × List Effect
on_read handled s (some message) bytes = (closed s, [])
on_read handled s none bytes =
    let r = receive s.rxbuf bytes in
    (
      record s { rxbuf = r.rxbuf },
      (if handled then deliver_all (requests r.frames) else [])
          ++ (if r.broken then undefined ∷ [] else reads ∷ []),
    )
