-- ===== src/Protocol/Stream.antt =====
-- The receive loop that the three readers of the IPC share: append what arrived to the buffer, then
-- take frames off it while `try_decode` answers true (daemon/src/ipc_server.cpp, do_read;
-- ui/src/ipc_client.cpp, do_read; tools/gsdctl/main.cpp, read_frame).
pub mod Laws
pub mod Chunks
use exn_gs.Common.{ℕ, zero, suc, List, [], ◌∷◌, ◌++◌, Bool, true, false, length}
use exn_gs.Protocol.{Frame, more, got, fault, try_decode}

-- `broken` says that `try_decode` copied from behind the end of the buffer.
pub record Received : Type 0 where
  pub frames : List Frame
  pub rxbuf : List ℕ
  pub broken : Bool

-- Every round but the last takes a frame of six bytes at least.
unfoldable pub decode_loop : ℕ → List ℕ → Received
decode_loop zero rxbuf = record { frames = []; rxbuf = rxbuf; broken = false }
decode_loop (suc fuel) rxbuf = elim (try_decode rxbuf) [
  | more ↦ record { frames = []; rxbuf = rxbuf; broken = false }
  | got f rest ↦ let r = decode_loop fuel rest in record r { frames = f ∷ r.frames }
  | fault ↦ record { frames = []; rxbuf = rxbuf; broken = true }
]

unfoldable pub decode_all : List ℕ → Received
decode_all rxbuf = decode_loop (suc (length rxbuf)) rxbuf

-- One completed read of `chunk`.
unfoldable pub receive : List ℕ → List ℕ → Received
receive rxbuf chunk = decode_all (rxbuf ++ chunk)

-- A sequence of reads; the handler does not survive a broken one.
unfoldable pub receive_all : List ℕ → List (List ℕ) → Received
receive_all rxbuf [] = record { frames = []; rxbuf = rxbuf; broken = false }
receive_all rxbuf (chunk ∷ chunks) =
    let r = receive rxbuf chunk in
    let later = receive_all r.rxbuf chunks in
    elim r.broken [ true ↦ r | false ↦ record later { frames = r.frames ++ later.frames } ]
