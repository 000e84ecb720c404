-- ===== src/App/Invariant.antt =====
-- What holds of the daemon after any events.
use exn_gs.Protocol.Strings.{Unpacked-cases}
use exn_gs.Framer.{push_bytes}
use exn_gs.Common.{
  ℕ, ◌≡◌, refl, sym, ap, ◌∙◌, arith, Bool, true, false, List, [], ◌∷◌, Text, if◌then◌else◌, inl,
  inr,
}
use exn_gs.Types.{LinkState, connected, disconnected}
use exn_gs.Types
use exn_gs.Protocol.{Frame, unpack_string}
use exn_gs.SpacePacket.Library.{Pack}
use exn_gs.State.{StateStore, set_link, on_tx, on_decode_error}
use exn_gs.State
use exn_gs.SerialLink.{
  SerialLink, Effect, starts, state_changes, fails, bytes_arrive, PortAnswer, start, stop,
  write_bytes, Result,
}
use exn_gs.SerialLink.World.{complete}
use exn_gs.App.{
  Daemon, Output, publish, on_packet, on_packets, on_bytes, run_effect, run_effects, with_link,
  run_command, route_packet, on_frame, on_connect, framer_size, and_then, reject_packet, uppercase,
}
use exn_gs.App.Honest.{
  told, IsHonest, start-IsHonest, stop-IsHonest, write_bytes-IsHonest, complete-IsHonest,
}
use exn_gs.App.Events.{
  Event, frame_arrives, client_connects, operation_completes, handle, run_events, boot, start_port,
  new_daemon,
}

abbrev pub is_connected : LinkState → Bool
is_connected connected = true
is_connected disconnected = false
is_connected Types.LinkState.error = false

-- The state store shows the link as connected exactly while it is open.
abbrev pub IsShown : Daemon → Type 0
IsShown d = is_connected d.state.snap.link ≡ d.link.opened

-- What no callback of the link or of the framer touches.
abbrev Steady : Daemon → Daemon → Type 0
Steady d d' = (d'.link ≡ d.link) × (d'.state.snap.framing_errors ≡ d.state.snap.framing_errors)

-- A step keeps the shown link state true and leaves the framing errors of the statistics alone.
pub record Keeps (d : Daemon) (r : Daemon × List Output) : Type 0 where
  pub shown : IsShown d → IsShown r.0
  pub errors : r.0.state.snap.framing_errors ≡ d.state.snap.framing_errors

module _ (pack : Pack) where
  on_packet-Steady :
      (now later : ℕ) (d : Daemon) (bytes : List ℕ)
      → let d' = (on_packet pack now later d bytes).0 in
        Steady d d' × (d'.state.snap.link ≡ d.state.snap.link)
  unfolding on_packet State.on_packet on_decode_error
  on_packet-Steady now later d bytes = ground arith

  pub on_packets-Steady :
      (now later : ℕ) (d : Daemon) (packets : List (List ℕ))
      → let d' = (on_packets pack now later d packets).0 in
        Steady d d' × (d'.state.snap.link ≡ d.state.snap.link)
  unfolding on_packets
  on_packets-Steady now later d [] = ground arith
  on_packets-Steady now later d (p ∷ ps) = ground (
    arith,
    on_packet-Steady now later d p,
    on_packets-Steady now later (on_packet pack now later d p).0 ps,
  )

  run_effects-Steady :
      (now later : ℕ) (d : Daemon) (es : List Effect)
      → let d' = (run_effects pack now later d es).0 in
        Steady d d' × (is_connected d'.state.snap.link ≡ told (is_connected d.state.snap.link) es)
  unfolding run_effects run_effect publish set_link on_bytes
  run_effects-Steady now later d [] = ground arith
  run_effects-Steady now later d (starts p ∷ es) = run_effects-Steady now later d es
  run_effects-Steady now later d (state_changes true detail ∷ es) =
      run_effects-Steady now later _ es
  run_effects-Steady now later d (state_changes false detail ∷ es) =
      run_effects-Steady now later _ es
  run_effects-Steady now later d (fails message ∷ es) = run_effects-Steady now later _ es
  run_effects-Steady now later d (bytes_arrive bytes ∷ es) =
      let (framer, packets) = push_bytes (framer_size pack) d.framer bytes in
      let d' : Daemon = record d { framer = framer } in
      let a = on_packets-Steady now later d' packets in
      let b = run_effects-Steady now later (on_packets pack now later d' packets).0 es in
      ((b.0.0 ∙ a.0.0, b.0.1 ∙ a.0.1), b.1 ∙ ap (λ l. told (is_connected l) es) a.1)

  with_link-Keeps :
      (now later : ℕ) (d : Daemon) (r : Result)
      → IsHonest d.link r
      → Keeps d (with_link pack now later d r)
  unfolding with_link
  with_link-Keeps now later d (l, es) h =
      let b = run_effects-Steady now later (record d { link = l }) es in
      record {
        shown = λ before.
            b.1
            ∙ ap (λ (o : Bool). told o es) before
            ∙ h
            ∙ sym (ap (λ (k : SerialLink). k.opened) b.0.0);
        errors = b.0.1;
      }

  and_then-Keeps :
      (d : Daemon) (r : Daemon × List Output) (go : Daemon → Daemon × List Output)
      → Keeps d r
      → Keeps r.0 (go r.0)
      → Keeps d (and_then pack r go)
  and_then-Keeps d r go a b = record {
    shown = λ before. b.shown (a.shown before);
    errors = b.errors ∙ a.errors;
  }

  if-Keeps :
      (d : Daemon) (b : Bool) (x y : Daemon × List Output)
      → Keeps d x
      → Keeps d y
      → Keeps d (if b then x else y)
  if-Keeps d true x y hx hy = hx
  if-Keeps d false x y hx hy = hy

  -- An answer alone changes nothing.
  answer-Keeps : (d : Daemon) (outputs : List Output) → Keeps d (d, outputs)
  answer-Keeps d outputs = record { shown = λ before. before; errors = refl }

  run_command-Keeps :
      (now later : ℕ) (answer : PortAnswer) (d : Daemon) (session : ℕ) (command : Text)
      → Keeps d (run_command pack now later answer d session command)
  unfolding run_command
  run_command-Keeps now later answer d session command =
      let started =
        with_link-Keeps now later d (start d.link answer) (start-IsHonest d.link answer) in
      let stopped = with_link-Keeps now later d (stop d.link) (stop-IsHonest d.link) in
      let d' = (with_link pack now later d (stop d.link)).0 in
      let again =
        and_then-Keeps d (with_link pack now later d (stop d.link))
          (λ k. with_link pack now later k (start k.link answer)) stopped
          (with_link-Keeps now later d' (start d'.link answer) (start-IsHonest d'.link answer)) in
      record {
        shown = λ before.
            ground (arith, started.shown before, stopped.shown before, again.shown before);
        errors = ground (arith, started.errors, stopped.errors, again.errors);
      }

  route_packet-Keeps :
      (now later : ℕ) (d : Daemon) (session : ℕ) (bytes : List ℕ)
      → Keeps d (route_packet pack now later d session bytes)
  unfolding route_packet reject_packet on_tx
  route_packet-Keeps now later d session bytes =
      let sent =
        with_link-Keeps now later d (write_bytes d.link bytes)
          (write_bytes-IsHonest d.link bytes) in
      record {
        shown = λ before. ground (arith, sent.shown before);
        errors = ground (arith, sent.errors);
      }

  on_frame-Keeps :
      (now later : ℕ) (answer : PortAnswer) (d : Daemon) (session : ℕ) (frame : Frame)
      → Keeps d (on_frame pack now later answer d session frame)
  unfolding on_frame
  on_frame-Keeps now later answer d session frame =
      let routed = route_packet-Keeps now later d session frame.payload in
      elim (Unpacked-cases (unpack_string frame.payload)) [
        | inl (command, e) ↦
            let run = run_command-Keeps now later answer d session (uppercase command) in
            rw e (record {
              shown = λ before. ground (arith, routed.shown before, run.shown before);
              errors = ground (arith, routed.errors, run.errors);
            })
        | inr (inl e) ↦ rw e (record {
          shown = λ before. ground (arith, routed.shown before);
          errors = ground (arith, routed.errors);
        })
        | inr (inr e) ↦ rw e (record {
          shown = λ before. ground (arith, routed.shown before);
          errors = ground (arith, routed.errors);
        })
      ]

  handle-Keeps : (now later : ℕ) (d : Daemon) (e : Event) → Keeps d (handle pack now later d e)
  unfolding handle on_connect
  handle-Keeps now later d (frame_arrives answer session frame) =
      on_frame-Keeps now later answer d session frame
  handle-Keeps now later d (client_connects session) = answer-Keeps d _
  handle-Keeps now later d (operation_completes p c) =
      with_link-Keeps now later d (complete d.link p c) (complete-IsHonest d.link p c)

  run_events-Keeps :
      (d : Daemon) (es : List (ℕ × ℕ × Event))
      → (IsShown d → IsShown (run_events pack d es))
        × ((run_events pack d es).state.snap.framing_errors ≡ d.state.snap.framing_errors)
  unfolding run_events
  run_events-Keeps d [] = (λ shown. shown, refl)
  run_events-Keeps d ((now, later, e) ∷ es) =
      let a = handle-Keeps now later d e in
      let b = run_events-Keeps (handle pack now later d e).0 es in
      (λ before. b.0 (a.shown before), b.1 ∙ a.errors)

  start_port-Keeps :
      (now later : ℕ) (answer : PortAnswer) (port : Text) (d : Daemon)
      → Keeps d (start_port pack now later answer port d)
  unfolding start_port
  start_port-Keeps now later answer [] d = answer-Keeps d []
  start_port-Keeps now later answer (c ∷ cs) d =
      with_link-Keeps now later d (start d.link answer) (start-IsHonest d.link answer)

  boot_lem :
      (now later : ℕ) (answer : PortAnswer) (link : SerialLink) (verbose : Bool)
      → link.opened ≡ false
      → let d = (boot pack now later answer link verbose).0 in
        IsShown d × (d.state.snap.framing_errors ≡ 0)
  unfolding boot publish set_link
  boot_lem now later answer link verbose closed =
      let fresh = (publish (new_daemon pack link verbose) disconnected []).0 in
      let k = start_port-Keeps now later answer link.port fresh in (k.shown (sym closed), k.errors)

  -- From the boot with a link that is not open, whatever frames, clients and completions of the link
  -- arrive, in any order: the state store shows the link as connected exactly while the link is open.
  -- The framing errors that STATS answers are 0, also where the framer has counted some.
  pub run_events-IsShown :
      (now later : ℕ) (answer : PortAnswer) (link : SerialLink) (verbose : Bool)
      (es : List (ℕ × ℕ × Event))
      → link.opened ≡ false
      → let d = run_events pack (boot pack now later answer link verbose).0 es in
        IsShown d × (d.state.snap.framing_errors ≡ 0)
  run_events-IsShown now later answer link verbose es closed =
      let b = boot_lem now later answer link verbose closed in
      let k = run_events-Keeps (boot pack now later answer link verbose).0 es in
      (k.0 b.0, k.1 ∙ b.1)
