-- ===== src/Ui/Events/Requests.antt =====
-- ui/src/ui_app.cpp: the housekeeping requests and their sequence counts.
use exn_gs.Common.{
  ℕ, ◌+◌, ◌%◌, ◌^◌, ◌≡◌, refl, sym, ap, arith, Bool, true, false, ◌&&◌, List, [], ◌∷◌, ◌++◌,
  append-nil, Bool-cases, Option-cases, inl, inr,
}
use exn_gs.Protocol.{
  MsgType, hello, link_state, packet_rx, packet_tx, error, query_result, command, query,
  packet_send, unnamed, unpack_packet_meta,
}
use exn_gs.Mission.{apid_obc, svc_hk, sub_sys_hk_request, pusid_gs, ack_read_default}
use exn_gs.SpacePacket.Library.{Pack}
use exn_gs.SpacePacket.{Built, build_pus_c_tc}
use exn_gs.Ui.{
  UiApp, new_app, Output, Result, send_system_hk, on_hk_timer, on_connection_state, on_frame,
  set_notice, push_rx, push_tx,
}
use exn_gs.Ui.Events.{Event, connection, frame, timer, hk_runs, key, step, run, sent}
use exn_gs.Ui.Events.Core.{Core, on_key-IsQuiet, with_text-elim}

sent-append : (os ps : List Output) → sent (os ++ ps) ≡ sent os ++ sent ps
sent-append [] ps = refl
sent-append (Output.sends_packet packet ∷ os) ps =
    ap (λ (l : List (List ℕ)). packet ∷ l) (sent-append os ps)
sent-append (Output.redraws ∷ os) ps = sent-append os ps
sent-append (Output.queues_hk ∷ os) ps = sent-append os ps
sent-append (Output.arms ∷ os) ps = sent-append os ps
sent-append (Output.exits ∷ os) ps = sent-append os ps
sent-append (Output.undefined ∷ os) ps = sent-append os ps
sent-append (Output.sends_command text ∷ os) ps = sent-append os ps

module _ (pack : Pack) where
  -- The System HK request with that sequence count.
  abbrev pub request : ℕ → Built
  request n = build_pus_c_tc pack apid_obc n svc_hk sub_sys_hk_request pusid_gs ack_read_default []

  -- The packets are requests that are numbered on from `n`; the next one has the number `m`.
  abbrev pub IsNumbered : ℕ → List (List ℕ) → ℕ → Type 0
  IsNumbered n [] m = n ≡ m
  IsNumbered n (packet ∷ packets) m =
      ((request n).built ≡ true)
      × ((request n).packet ≡ packet)
      × IsNumbered ((n + 1) % 2 ^ 14) packets m

  IsNumbered-append :
      (n k m : ℕ) (ps qs : List (List ℕ))
      → IsNumbered n ps k
      → IsNumbered k qs m
      → IsNumbered n (ps ++ qs) m
  IsNumbered-append n k m [] qs e h = rw e h
  IsNumbered-append n k m (p ∷ ps) qs (a, b, g) h =
      (a, b, IsNumbered-append ((n + 1) % 2 ^ 14) k m ps qs g h)

  -- What a handler has sent, and the count it leaves.
  abbrev Numbers : UiApp → Result → Type 0
  Numbers u (u', outputs) = IsNumbered u.tc_sequence (sent outputs) u'.tc_sequence

  send_system_hk-Numbers : (u : UiApp) → Numbers u (send_system_hk pack u)
  unfolding send_system_hk set_notice
  send_system_hk-Numbers u = elim (Bool-cases (request u.tc_sequence).built) [
    | inl e ↦ rw (e, send_system_hk) (e, refl, omega arith)
    | inr e ↦ rw (e, send_system_hk) refl
  ]

  on_hk_timer-Numbers : (u : UiApp) (cancelled : Bool) → Numbers u (on_hk_timer pack u cancelled)
  unfolding on_hk_timer
  on_hk_timer-Numbers u true = refl
  on_hk_timer-Numbers u false =
      elim (Bool-cases (u.hk_enabled && u.daemon_connected && u.device_connected)) [
        | inl e ↦
            let (u', outputs) = send_system_hk pack u in
            rw
              (
                e,
                sent-append (send_system_hk pack u).1 (Output.arms ∷ []),
                append-nil (sent (send_system_hk pack u).1),
              )
              (send_system_hk-Numbers u)
        | inr e ↦ rw e refl
      ]

  on_frame-Numbers :
      (u : UiApp) (type : MsgType) (payload : List ℕ)
      → Numbers u (on_frame u (record { type = type; payload = payload }))
  unfolding on_frame set_notice push_rx push_tx
  on_frame-Numbers u hello payload = with_text-elim (Numbers u) u payload _ refl refl (λ s. refl)
  on_frame-Numbers u link_state payload =
      with_text-elim (Numbers u) u payload _ refl refl (λ s. refl)
  on_frame-Numbers u query_result payload =
      with_text-elim (Numbers u) u payload _ refl refl (λ s. refl)
  on_frame-Numbers u error payload = with_text-elim (Numbers u) u payload _ refl refl (λ s. refl)
  on_frame-Numbers u packet_rx payload = elim (Option-cases (unpack_packet_meta payload)) [
    | inl e ↦ rw (e, on_frame) refl
    | inr (found, e) ↦ rw (e, on_frame) refl
  ]
  on_frame-Numbers u packet_tx payload = elim (Option-cases (unpack_packet_meta payload)) [
    | inl e ↦ rw (e, on_frame) refl
    | inr (found, e) ↦ rw (e, on_frame) refl
  ]
  on_frame-Numbers u command payload = refl
  on_frame-Numbers u query payload = refl
  on_frame-Numbers u packet_send payload = refl
  on_frame-Numbers u (unnamed n) payload = refl

  step-Numbers : (u : UiApp) (e : Event) → Numbers u (step pack u e)
  unfolding step on_connection_state
  step-Numbers u (connection true detail) = refl
  step-Numbers u (connection false detail) = refl
  step-Numbers u (frame f) = on_frame-Numbers u f.type f.payload
  step-Numbers u (timer cancelled) = on_hk_timer-Numbers u cancelled
  step-Numbers u hk_runs = send_system_hk-Numbers u
  step-Numbers u (key k edited) =
      let (same, none_sent) = on_key-IsQuiet u k edited in
      rw none_sent (sym (ap (λ (c : Core). c.tc_sequence) same))

  run-Numbers : (u : UiApp) (es : List Event) → Numbers u (run pack u es)
  unfolding run
  run-Numbers u [] = refl
  run-Numbers u (e ∷ es) =
      let r = step pack u e in
      let s = run pack r.0 es in
      rw (sent-append r.1 s.1) (
        IsNumbered-append u.tc_sequence r.0.tc_sequence s.0.tc_sequence (sent r.1) (sent s.1)
          (step-Numbers u e) (run-Numbers r.0 es))

  -- After whatever events, the packets that were given to the IPC client are System HK requests with the
  -- sequence counts 1, 2, 3 and so on modulo 2 ^ 14, none left out and none used twice, although some
  -- are sent by the timer and some by a command.
  pub run-requests :
      (es : List Event) → let r = run pack new_app es in IsNumbered 1 (sent r.1) r.0.tc_sequence
  run-requests es = run-Numbers new_app es
