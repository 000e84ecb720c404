-- ===== src/Simulator/Sessions.antt =====
-- sim/src/main.cpp: the simulator's socket: `start_session`, `start_async_read` and `tm_tx_task`.
pub mod Streams
use exn_gs.Common.{
  ℕ, suc, ◌-◌, Bool, true, false, List, [], ◌∷◌, ◌++◌, Option, none, some, Text, if◌then◌else◌,
}
use exn_gs.SpacePacket.Library.{Pack}
use exn_gs.Framer.{Framer, new_framer, push_bytes}
use exn_gs.App.{framer_size}
use exn_gs.Simulator.{TcMessage, accept_tc}

-- `g_connected`, the framer of the session, and the `async_write`s begun on its socket.
pub record SimLink : Type 0 where
  pub connected : Bool
  pub framer : Framer
  pub writing : List (List ℕ)

-- `closes` shuts the socket down; `pushes` is to the telecommand queue.
pub data Effect : Type 0 where
  accepts reads closes : Effect
  pushes : TcMessage → Effect
  posts writes : List ℕ → Effect

abbrev pub Result : Type 0
Result = SimLink × List Effect

-- A new socket and a new framer; `g_connected` is left alone.
unfoldable pub start_session : SimLink → Result
start_session l = (record l { framer = new_framer; writing = [] }, accepts ∷ [])

-- Before `main` calls `start_session`.
abbrev pub new_link : SimLink
new_link = record { connected = false; framer = new_framer; writing = [] }

-- `some message` is an error code.
unfoldable pub on_accepted : SimLink → Option Text → Result
unfolding start_session
on_accepted l (some message) = start_session l
on_accepted l none = (record l { connected = true }, reads ∷ [])

module _ (pack : Pack) (now : ℕ) where
  -- The framer's callback on each packet.
  abbrev pub push_accepted : List (List ℕ) → List Effect
  push_accepted [] = []
  push_accepted (p ∷ ps) = elim (accept_tc pack now p) [
    | none ↦ push_accepted ps
    | some tc ↦ pushes tc ∷ push_accepted ps
  ]

  unfoldable pub on_read : SimLink → Option Text → List ℕ → Result
  unfolding start_session
  on_read l (some message) bytes =
      let (l', effects) = start_session (record l { connected = false }) in (l', closes ∷ effects)
  on_read l none bytes =
      let (framer, packets) = push_bytes (framer_size pack) l.framer bytes in
      (record l { framer = framer }, push_accepted packets ++ reads ∷ [])

-- A round of `tm_tx_task`, with a report from its queue.
unfoldable pub take_tm : SimLink → List ℕ → List Effect
take_tm l bytes = if l.connected then posts bytes ∷ [] else []

-- The lambda that it posts.
unfoldable pub run_posted : SimLink → List ℕ → Result
run_posted l bytes =
    if l.connected
    then (record l { writing = l.writing ++ bytes ∷ [] }, writes bytes ∷ [])
    else (l, [])
