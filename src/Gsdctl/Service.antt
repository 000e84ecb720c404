-- ===== src/Gsdctl/Service.antt =====
-- The command line client and the daemon together (tools/gsdctl/main.cpp, daemon/src/app.cpp).
use mathlib.Core.List.{flatten}
use exn_gs.Common.{
  ℕ, ◌+◌, ◌^◌, ◌<◌, ◌≡◌, refl, arith, ◌∙◌, ap, true, List, [], ◌∷◌, ◌++◌, Text, codes, length, ◌==◌,
  if◌then◌else◌,
}
use exn_gs.Protocol.{query_result, Frame, encode, pack_string}
use exn_gs.Protocol.Stream.Chunks.{encode_all}
use exn_gs.SpacePacket.Library.{Pack}
use exn_gs.State.{snapshot}
use exn_gs.SerialLink.{PortAnswer}
use exn_gs.App.{
  Daemon, Output, send, broadcast, store, operation, print_packet, undefined, on_frame, on_connect,
  run_command, current_link_frame, make_query_result, uppercase, upper,
}
use exn_gs.Gsdctl.{prints, sends, exits, session}
use exn_gs.Gsdctl.Reading.{IsChunked, received}
use exn_gs.Gsdctl.Replies.{session-told}
use exn_gs.Gsdctl.Exchange.{
  hello_frame, command_frame, link_text, unpack_short, pong, pong-IsWellFormed, link_frame,
  link_frame-IsWellFormed, shown_link, failed, told_ping, told_status, served-IsWellFormed,
}

-- The frames of the daemon's outputs that reach one session.
abbrev pub sent_to : ℕ → List Output → List Frame
sent_to n [] = []
sent_to n (send m f ∷ os) = if m == n then f ∷ sent_to n os else sent_to n os
sent_to n (broadcast f ∷ os) = f ∷ sent_to n os
sent_to n (store rec ∷ os) = sent_to n os
sent_to n (operation p ∷ os) = sent_to n os
sent_to n (print_packet prefix meta desc ∷ os) = sent_to n os
sent_to n (undefined ∷ os) = sent_to n os

module _ (pack : Pack) (now later : ℕ) (answer : PortAnswer) (d : Daemon) (n : ℕ) where
  -- What a new client gets that sends one command.
  abbrev pub conversation : Text → List Frame
  conversation text =
      hello_frame
      ∷ (sent_to n (on_connect pack d n).1
          ++ sent_to n (on_frame pack now later answer d n (command_frame text)).1)

  same_session : (n == n) ≡ true
  same_session = ground arith

  ping_conversation :
      conversation (codes "PING")
      ≡ hello_frame
        ∷ link_frame d
        ∷ record { type = query_result; payload = pack_string (codes "PONG") }
        ∷ []
  unfolding on_connect on_frame run_command current_link_frame make_query_result snapshot uppercase
      upper
  ping_conversation = rw (unpack_short (codes "PING") (omega arith), same_session) refl

  status_conversation :
      conversation (codes "STATUS") ≡ hello_frame ∷ link_frame d ∷ link_frame d ∷ []
  unfolding on_connect on_frame run_command current_link_frame make_query_result snapshot uppercase
      upper
  status_conversation = rw (unpack_short (codes "STATUS") (omega arith), same_session) refl

  -- `gsdctl ping` gets its answer, whatever the state of the daemon: where the daemon's frames to it are
  -- the hello frame, the answer to the connection and the answer to PING, cut into reads anyhow, it
  -- prints the greeting, the link state and PONG, and exits with 0. The link text is shorter than 2 GiB.
  pub ping-session :
      (chunks : List (List ℕ))
      → 8 + length (link_text d) < 2 ^ 31
      → IsChunked chunks
      → flatten chunks ≡ encode_all (conversation (codes "PING"))
      → session (codes "ping") [] (received chunks) ≡ record {
        shown =
            prints (codes "Daemon: exn_gsd\n")
            ∷ shown_link d
            ∷ sends (encode (command_frame (codes "PING")))
            ∷ prints (codes "PONG\n")
            ∷ [];
        exit = exits 0;
      }
  ping-session chunks h c e =
      session-told (codes "ping") [] chunks (hello_frame ∷ link_frame d ∷ pong ∷ [])
        (served-IsWellFormed d pong h pong-IsWellFormed) c (e ∙ ap encode_all ping_conversation)
      ∙ told_ping d h

  -- `gsdctl status` gets its answer likewise: it prints the link state again, and exits with 1 if that is
  -- ERROR, and with 0 if not.
  pub status-session :
      (chunks : List (List ℕ))
      → 8 + length (link_text d) < 2 ^ 31
      → IsChunked chunks
      → flatten chunks ≡ encode_all (conversation (codes "STATUS"))
      → session (codes "status") [] (received chunks) ≡ record {
        shown =
            prints (codes "Daemon: exn_gsd\n")
            ∷ shown_link d
            ∷ sends (encode (command_frame (codes "STATUS")))
            ∷ shown_link d
            ∷ [];
        exit = exits (failed d);
      }
  status-session chunks h c e =
      session-told (codes "status") [] chunks (hello_frame ∷ link_frame d ∷ link_frame d ∷ [])
        (served-IsWellFormed d (link_frame d) h (link_frame-IsWellFormed d h)) c
        (e ∙ ap encode_all status_conversation)
      ∙ told_status d h
