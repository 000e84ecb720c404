-- ===== src/App/Events.antt =====
-- The daemon's life: what happens to it, one callback at a time.
use exn_gs.Common.{ℕ, List, [], ◌∷◌, Text, Bool}
use exn_gs.Types.{disconnected}
use exn_gs.Protocol.{Frame}
use exn_gs.SpacePacket.Library.{Pack}
use exn_gs.Framer.{new_framer}
use exn_gs.State.{new_store}
use exn_gs.SerialLink.{SerialLink, Pending, PortAnswer, start}
use exn_gs.SerialLink.World.{Completion, complete}
use exn_gs.App.{Daemon, Output, publish, with_link, on_frame, on_connect, and_then}

-- `complete` is a completed operation of the link, or a lambda that it posted.
pub data Event : Type 0 where
  frame_arrives : PortAnswer → ℕ → Frame → Event
  client_connects : ℕ → Event
  operation_completes : Pending → Completion → Event

module _ (pack : Pack) where
  unfoldable pub handle : ℕ → ℕ → Daemon → Event → Daemon × List Output
  handle now later d (frame_arrives answer session frame) =
      on_frame pack now later answer d session frame
  handle now later d (client_connects session) = on_connect pack d session
  handle now later d (operation_completes p c) = with_link pack now later d (complete d.link p c)

  -- `App::run`, up to `io.run()`; the link is new and the configured port may be empty.
  abbrev pub new_daemon : SerialLink → Bool → Daemon
  new_daemon link verbose = record {
    state = new_store 2000;
    link = link;
    framer = new_framer;
    verbose = verbose;
  }

  unfoldable pub start_port : ℕ → ℕ → PortAnswer → Text → Daemon → Daemon × List Output
  start_port now later answer [] d = (d, [])
  start_port now later answer (c ∷ cs) d = with_link pack now later d (start d.link answer)

  unfoldable pub boot : ℕ → ℕ → PortAnswer → SerialLink → Bool → Daemon × List Output
  unfolding start_port
  boot now later answer link verbose =
      and_then pack (publish (new_daemon link verbose) disconnected [])
        (start_port now later answer link.port)

  -- The clock is read twice in each event.
  unfoldable pub run_events : Daemon → List (ℕ × ℕ × Event) → Daemon
  run_events d [] = d
  run_events d ((now, later, e) ∷ es) = run_events (handle now later d e).0 es
