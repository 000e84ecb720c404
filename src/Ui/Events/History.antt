-- ===== src/Ui/Events/History.antt =====
-- ui/src/ui_app.cpp: the rows and the sequence count tell what has happened.
use exn_gs.Common.{
  ℕ, ◌≡◌, refl, sym, ap, ◌∙◌, Bool, true, false, ◌&&◌, List, [], ◌∷◌, ◌++◌, append-nil,
  append_assoc, none, some, Bool-cases, Option-cases, inl, inr, length, ltb,
}
use exn_gs.State.{trim}
use exn_gs.State.Ring.{last, trim-append}
use exn_gs.Protocol.{
  MsgType, hello, link_state, packet_rx, packet_tx, error, query_result, command, query,
  packet_send, unnamed, Frame, unpack_packet_meta,
}
use exn_gs.Mission.{apid_obc, svc_hk, sub_sys_hk_request, pusid_gs, ack_read_default}
use exn_gs.SpacePacket.Library.{Pack}
use exn_gs.SpacePacket.{build_pus_c_tc}
use exn_gs.Ui.{
  PacketRow, UiApp, new_app, Result, trim_rows, send_system_hk, on_hk_timer, on_connection_state,
  on_frame, set_notice, push_rx, push_tx,
}
use exn_gs.Ui.Keys.{on_key}
use exn_gs.Ui.Events.{Event, connection, frame, timer, hk_runs, key, step, run}
use exn_gs.Ui.Events.Core.{Core, on_key-IsQuiet, with_text-elim}

trim_rows-trim : {A : Type 0} (n : ℕ) (rows : List A) → trim_rows n rows ≡ trim n rows
unfolding trim_rows trim
trim_rows-trim n [] = refl
trim_rows-trim n (row ∷ rows) = elim (Bool-cases (ltb n (length (row ∷ rows)))) [
  | inl e ↦ rw e (trim_rows-trim n rows)
  | inr e ↦ rw e refl
]

-- The row of a packet notification.
abbrev pub row_of : List ℕ → List PacketRow
row_of payload = elim (unpack_packet_meta payload) [
  | none ↦ []
  | some (m, desc) ↦ record { m = m; desc = desc } ∷ []
]

abbrev pub rx_row : Event → List PacketRow
rx_row (frame f) = elim f.type [ packet_rx ↦ row_of f.payload | _ ↦ [] ]
rx_row _ = []

abbrev pub tx_row : Event → List PacketRow
tx_row (frame f) = elim f.type [ packet_tx ↦ row_of f.payload | _ ↦ [] ]
tx_row _ = []

-- The rows of all notifications, in order.
abbrev pub rx_history : List Event → List PacketRow
rx_history [] = []
rx_history (e ∷ es) = rx_row e ++ rx_history es

abbrev pub tx_history : List Event → List PacketRow
tx_history [] = []
tx_history (e ∷ es) = tx_row e ++ tx_history es

-- The rows of a state are the last ones of the two histories.
abbrev ShowsRows : List PacketRow → List PacketRow → UiApp → Type 0
ShowsRows rx tx u = (u.rx_rows ≡ last 5000 rx) × (u.tx_rows ≡ last 5000 tx)

-- Nothing is new.
same_rows :
    (rx tx : List PacketRow) (u : UiApp) → ShowsRows rx tx u → ShowsRows (rx ++ []) (tx ++ []) u
same_rows rx tx u h = rw (append-nil rx, append-nil tx) h

push :
    (rows history : List PacketRow) (row : PacketRow)
    → rows ≡ last 5000 history
    → trim_rows 5000 (rows ++ row ∷ []) ≡ last 5000 (history ++ row ∷ [])
push rows history row e =
    trim_rows-trim 5000 (rows ++ row ∷ [])
    ∙ ap (λ (xs : List PacketRow). trim 5000 (xs ++ row ∷ [])) e
    ∙ trim-append 5000 history row

on_frame-ShowsRows :
    (rx tx : List PacketRow) (u : UiApp) (type : MsgType) (payload : List ℕ)
    → ShowsRows rx tx u
    → let f : Frame = record { type = type; payload = payload } in
      ShowsRows (rx ++ rx_row (frame f)) (tx ++ tx_row (frame f)) (on_frame u f).0
unfolding on_frame set_notice push_rx push_tx
on_frame-ShowsRows rx tx u hello payload h =
    let k = same_rows rx tx u h in
    with_text-elim (λ (r : Result). ShowsRows (rx ++ []) (tx ++ []) r.0) u payload _ k k (λ s. k)
on_frame-ShowsRows rx tx u link_state payload h =
    let k = same_rows rx tx u h in
    with_text-elim (λ (r : Result). ShowsRows (rx ++ []) (tx ++ []) r.0) u payload _ k k (λ s. k)
on_frame-ShowsRows rx tx u query_result payload h =
    let k = same_rows rx tx u h in
    with_text-elim (λ (r : Result). ShowsRows (rx ++ []) (tx ++ []) r.0) u payload _ k k (λ s. k)
on_frame-ShowsRows rx tx u error payload h =
    let k = same_rows rx tx u h in
    with_text-elim (λ (r : Result). ShowsRows (rx ++ []) (tx ++ []) r.0) u payload _ k k (λ s. k)
on_frame-ShowsRows rx tx u packet_rx payload h = elim (Option-cases (unpack_packet_meta payload)) [
  | inl e ↦ rw (e, on_frame, row_of) (same_rows rx tx u h)
  | inr ((m, desc), e) ↦
      rw (e, on_frame, row_of)
        (push u.rx_rows rx (record { m = m; desc = desc }) h.0, (same_rows rx tx u h).1)
]
on_frame-ShowsRows rx tx u packet_tx payload h = elim (Option-cases (unpack_packet_meta payload)) [
  | inl e ↦ rw (e, on_frame, row_of) (same_rows rx tx u h)
  | inr ((m, desc), e) ↦
      rw (e, on_frame, row_of)
        ((same_rows rx tx u h).0, push u.tx_rows tx (record { m = m; desc = desc }) h.1)
]
on_frame-ShowsRows rx tx u command payload h = same_rows rx tx u h
on_frame-ShowsRows rx tx u query payload h = same_rows rx tx u h
on_frame-ShowsRows rx tx u packet_send payload h = same_rows rx tx u h
on_frame-ShowsRows rx tx u (unnamed n) payload h = same_rows rx tx u h

module _ (pack : Pack) where
  send_system_hk-ShowsRows :
      (rx tx : List PacketRow) (u : UiApp)
      → ShowsRows rx tx u
      → ShowsRows rx tx (send_system_hk pack u).0
  unfolding send_system_hk set_notice
  send_system_hk-ShowsRows rx tx u h =
      elim (Bool-cases
        (build_pus_c_tc pack apid_obc u.tc_sequence svc_hk sub_sys_hk_request pusid_gs
          ack_read_default []).built) [
            | inl e ↦ rw (e, send_system_hk) h
            | inr e ↦ rw (e, send_system_hk) h
          ]

  on_hk_timer-ShowsRows :
      (rx tx : List PacketRow) (u : UiApp) (cancelled : Bool)
      → ShowsRows rx tx u
      → ShowsRows rx tx (on_hk_timer pack u cancelled).0
  unfolding on_hk_timer
  on_hk_timer-ShowsRows rx tx u true h = h
  on_hk_timer-ShowsRows rx tx u false h =
      elim (Bool-cases (u.hk_enabled && u.daemon_connected && u.device_connected)) [
        | inl e ↦ rw e (send_system_hk-ShowsRows rx tx u h)
        | inr e ↦ rw e h
      ]

  step-ShowsRows :
      (rx tx : List PacketRow) (u : UiApp) (e : Event)
      → ShowsRows rx tx u
      → ShowsRows (rx ++ rx_row e) (tx ++ tx_row e) (step pack u e).0
  unfolding step on_connection_state
  step-ShowsRows rx tx u (connection true detail) h = same_rows rx tx u h
  step-ShowsRows rx tx u (connection false detail) h = same_rows rx tx u h
  step-ShowsRows rx tx u (frame f) h = on_frame-ShowsRows rx tx u f.type f.payload h
  step-ShowsRows rx tx u (timer cancelled) h =
      same_rows rx tx (on_hk_timer pack u cancelled).0 (on_hk_timer-ShowsRows rx tx u cancelled h)
  step-ShowsRows rx tx u hk_runs h =
      same_rows rx tx (send_system_hk pack u).0 (send_system_hk-ShowsRows rx tx u h)
  step-ShowsRows rx tx u (key k edited) h =
      let same = (on_key-IsQuiet u k edited).0 in
      same_rows rx tx (on_key u k edited).0
        (ap (λ (c : Core). c.rx_rows) same ∙ h.0, ap (λ (c : Core). c.tx_rows) same ∙ h.1)

  run-ShowsRows :
      (rx tx : List PacketRow) (u : UiApp) (es : List Event)
      → ShowsRows rx tx u
      → ShowsRows (rx ++ rx_history es) (tx ++ tx_history es) (run pack u es).0
  unfolding run
  run-ShowsRows rx tx u [] h = same_rows rx tx u h
  run-ShowsRows rx tx u (e ∷ es) h =
      rw
        (
          sym (append_assoc rx (rx_row e) (rx_history es)),
          sym (append_assoc tx (tx_row e) (tx_history es)),
        )
        (run-ShowsRows (rx ++ rx_row e) (tx ++ tx_row e) (step pack u e).0 es
          (step-ShowsRows rx tx u e h))

  -- The two tables hold the last 5000 packets of which the daemon has told, in order: those received in
  -- one, those sent in the other, after whatever events.
  pub run-rows :
      (es : List Event)
      → ((run pack new_app es).0.rx_rows ≡ last 5000 (rx_history es))
        × ((run pack new_app es).0.tx_rows ≡ last 5000 (tx_history es))
  run-rows es = run-ShowsRows [] [] new_app es (refl, refl)
