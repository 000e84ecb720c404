-- ===== src/Ui/Events.antt =====
-- ui/src/ui_app.cpp: the callbacks in sequence. A run of the user interface is a list of events, in the order
-- in which its two threads take them.
pub mod Core
pub mod Lights
pub mod History
pub mod Requests
pub mod Arrivals
pub mod Typing
use exn_gs.Common.{ℕ, Bool, true, false, List, [], ◌∷◌, ◌++◌, Text}
use exn_gs.Protocol.{Frame}
use exn_gs.SpacePacket.Library.{Pack}
use exn_gs.Ui.{
  UiApp, Output, sends_packet, Result, send_system_hk, on_hk_timer, on_connection_state, on_frame,
}
use exn_gs.Ui.Keys.{Key, on_key}

-- `hk_runs` is a `send_system_hk` that HK_REQ has posted; `timer true` is a timer that was cancelled.
pub data Event : Type 0 where
  connection : Bool → Text → Event
  frame : Frame → Event
  timer : Bool → Event
  hk_runs : Event
  key : Key → Text → Event

module _ (pack : Pack) where
  unfoldable pub step : UiApp → Event → Result
  step u (connection connected detail) = on_connection_state u connected detail
  step u (frame f) = on_frame u f
  step u (timer cancelled) = on_hk_timer pack u cancelled
  step u hk_runs = send_system_hk pack u
  step u (key k edited) = on_key u k edited

  unfoldable pub run : UiApp → List Event → Result
  unfolding step
  run u [] = (u, [])
  run u (e ∷ es) =
      let (u', outputs) = step u e in let (u'', more) = run u' es in (u'', outputs ++ more)

-- The packets that are given to the IPC client.
abbrev pub sent : List Output → List (List ℕ)
sent [] = []
sent (sends_packet packet ∷ os) = packet ∷ sent os
sent (Output.redraws ∷ os) = sent os
sent (Output.queues_hk ∷ os) = sent os
sent (Output.arms ∷ os) = sent os
sent (Output.exits ∷ os) = sent os
sent (Output.undefined ∷ os) = sent os
sent (Output.sends_command command ∷ os) = sent os
