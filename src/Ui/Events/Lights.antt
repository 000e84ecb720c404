-- ===== src/Ui/Events/Lights.antt =====
-- ui/src/ui_app.cpp: the lines of the connections, and the flags that gate the housekeeping requests.
use mathlib.Core.Path.{subst, sym}
use exn_gs.Ui.Events.Core.{Core, core, with_text-elim, on_key-IsQuiet}
use exn_gs.Ui.Elements.{green, yellow}
use exn_gs.Ui.Screen.{daemon_color}
use exn_gs.Common.{
  if◌then◌else◌, ℕ, ◌^◌, ◌<◌, ◌≡◌, refl, arith, Bool, true, false, List, [], ◌∷◌, Text, codes,
  starts_with, inl, inr, Bool-cases, Option-cases, ◌&&◌,
}
use exn_gs.Protocol.{
  command, query, packet_send, unnamed, MsgType, hello, link_state, packet_rx, packet_tx, error,
  query_result, unpack_packet_meta,
}
use exn_gs.SpacePacket.Library.{Pack}
use exn_gs.Ui.{
  UiApp, new_app, Result, send_system_hk, on_hk_timer, on_connection_state, on_frame, set_notice,
  push_rx, push_tx, with_text,
}
use exn_gs.Ui.Events.{Event, connection, frame, timer, hk_runs, key, step, run}

-- The two lights are green exactly if the flags are set, and the sequence count fits its 14 bits.
abbrev pub IsHonest : Core → Type 0
IsHonest u =
    (u.daemon_connected ≡ starts_with u.daemon_line (codes "CONNECTED"))
    × (u.device_connected ≡ starts_with u.device_line (codes "CONNECTED"))
    × (u.tc_sequence < 2 ^ 14)
    × (daemon_color u.daemon_line ≡ (if u.daemon_connected then green else yellow))

on_connection_state-IsHonest :
    (u : UiApp) (connected : Bool) (detail : Text)
    → IsHonest (core u)
    → IsHonest (core (on_connection_state u connected detail).0)
unfolding on_connection_state daemon_color
on_connection_state-IsHonest u true detail (a, b, c, d) = (refl, b, c, refl)
on_connection_state-IsHonest u false detail (a, b, c, d) = (refl, refl, c, refl)

module _ (pack : Pack) where
  send_system_hk-IsHonest :
      (u : UiApp) → IsHonest (core u) → IsHonest (core (send_system_hk pack u).0)
  unfolding send_system_hk set_notice
  send_system_hk-IsHonest u (a, b, c, d) = ground arith

  on_hk_timer-IsHonest :
      (u : UiApp) (cancelled : Bool)
      → IsHonest (core u)
      → IsHonest (core (on_hk_timer pack u cancelled).0)
  unfolding on_hk_timer
  on_hk_timer-IsHonest u true h = h
  on_hk_timer-IsHonest u false h =
      elim (Bool-cases (u.hk_enabled && u.daemon_connected && u.device_connected)) [
        | inl e ↦ rw e (send_system_hk-IsHonest u h)
        | inr e ↦ rw e h
      ]

with_text-IsHonest :
    (u : UiApp) (payload : List ℕ) (go : Text → Result)
    → IsHonest (core u)
    → ((s : Text) → IsHonest (core (go s).0))
    → IsHonest (core (with_text u payload go).0)
with_text-IsHonest u payload go h k =
    with_text-elim (λ (r : Result). IsHonest (core r.0)) u payload go h h k

on_frame_type-IsHonest :
    (u : UiApp) (type : MsgType) (payload : List ℕ)
    → IsHonest (core u)
    → IsHonest (core (on_frame u (record { type = type; payload = payload })).0)
unfolding on_frame set_notice push_rx push_tx
on_frame_type-IsHonest u hello payload h = with_text-IsHonest u payload _ h (λ s. h)
on_frame_type-IsHonest u link_state payload h =
    with_text-IsHonest u payload _ h (λ s. (h.0, refl, h.2, h.3))
on_frame_type-IsHonest u packet_rx payload h = elim (Option-cases (unpack_packet_meta payload)) [
  | inl e ↦ rw (e, on_frame) h
  | inr (found, e) ↦ rw (e, on_frame) h
]
on_frame_type-IsHonest u packet_tx payload h = elim (Option-cases (unpack_packet_meta payload)) [
  | inl e ↦ rw (e, on_frame) h
  | inr (found, e) ↦ rw (e, on_frame) h
]
on_frame_type-IsHonest u query_result payload h = with_text-IsHonest u payload _ h (λ s. h)
on_frame_type-IsHonest u error payload h = with_text-IsHonest u payload _ h (λ s. h)
on_frame_type-IsHonest u command payload h = h
on_frame_type-IsHonest u query payload h = h
on_frame_type-IsHonest u packet_send payload h = h
on_frame_type-IsHonest u (unnamed n) payload h = h

module _ (pack : Pack) where
  step-IsHonest : (u : UiApp) (e : Event) → IsHonest (core u) → IsHonest (core (step pack u e).0)
  unfolding step
  step-IsHonest u (connection connected detail) h =
      on_connection_state-IsHonest u connected detail h
  step-IsHonest u (frame f) h = on_frame_type-IsHonest u f.type f.payload h
  step-IsHonest u (timer cancelled) h = on_hk_timer-IsHonest pack u cancelled h
  step-IsHonest u hk_runs h = send_system_hk-IsHonest pack u h
  step-IsHonest u (key k edited) h = subst IsHonest (sym (on_key-IsQuiet u k edited).0) h

  run-IsHonest :
      (u : UiApp) (es : List Event) → IsHonest (core u) → IsHonest (core (run pack u es).0)
  unfolding run
  run-IsHonest u [] h = h
  run-IsHonest u (e ∷ es) h = run-IsHonest (step pack u e).0 es (step-IsHonest u e h)

  -- Whatever happens: the lights of the daemon and of the device are green exactly if the flags are set
  -- that a housekeeping request waits for, and else the daemon's is yellow; and the sequence count
  -- fits its 14 bits.
  pub run-new_app-IsHonest : (es : List Event) → IsHonest (core (run pack new_app es).0)
  unfolding daemon_color
  run-new_app-IsHonest es = run-IsHonest new_app es (refl, refl, omega arith, refl)
