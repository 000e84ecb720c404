-- ===== src/Tests/Clients.antt =====
-- Concrete runs of the command line client, of the server's broadcast and of the command lines.
use mathlib.Core.List.{flatten}
use exn_gs.Common.{
  ℕ, ◌≡◌, refl, arith, ap, true, List, [], ◌∷◌, none, some, Text, codes, All, length, if◌then◌else◌,
  ◌+◌, ◌<◌, ◌^◌,
}
use exn_gs.Protocol.{Frame, error, encode, hello, type_code, of_code, pack_string}
use exn_gs.Protocol.Bytes.{append_u32}
use exn_gs.Protocol.Stream.Chunks.{encode_all, IsWellFormed}
use exn_gs.App.{with_detail, link_state_to_string}
use exn_gs.App.Options.{
  AppConfig, default_config, runs, parse_args, print_args, parse_args-print_args,
}
use exn_gs.Gsdctl.{prints, sends, exits, session}
use exn_gs.Gsdctl.Reading.{IsChunked, received}
use exn_gs.Gsdctl.Replies.{session_told, session-told}
use exn_gs.Gsdctl.Exchange.{command_frame, shown_link, failed, link_text}
use exn_gs.Gsdctl.Service.{conversation, ping-session, status-session}
use exn_gs.Ipc.Server.{new_server, broadcast, lock}
use exn_gs.Ipc.Server.Store.{is_live, posts_to}
use exn_gs.Ipc.Server.Tracking.{Call, accepted, expires, run, broadcast-once}
use exn_gs.Tests.Instances.{demo}
use exn_gs.Tests.Daemons.{open_daemon}
use exn_gs.Tests.Link.{port_opens}

-- Bytes that arrive one at a time.
abbrev pub singles : List ℕ → List (List ℕ)
singles [] = []
singles (b ∷ bytes) = (b ∷ []) ∷ singles bytes

singles-IsChunked : (bytes : List ℕ) → IsChunked (singles bytes)
singles-IsChunked [] = tt
singles-IsChunked (b ∷ bytes) = (λ e. cc, singles-IsChunked bytes)

pub flatten-singles : (bytes : List ℕ) → flatten (singles bytes) ≡ bytes
unfolding flatten
flatten-singles [] = refl
flatten-singles (b ∷ bytes) = ap (λ (l : List ℕ). b ∷ l) (flatten-singles bytes)

abbrev conversation_bytes : Text → List ℕ
conversation_bytes text = encode_all (conversation demo 5 6 port_opens open_daemon 7 text)

short_link_text : 8 + length (link_text open_daemon) < 2 ^ 31
unfolding with_detail link_state_to_string
short_link_text = omega arith

ping-session_example :
    session (codes "ping") [] (received (singles (conversation_bytes (codes "PING")))) ≡ record {
      shown =
          prints (codes "Daemon: exn_gsd\n")
          ∷ shown_link open_daemon
          ∷ sends (encode (command_frame (codes "PING")))
          ∷ prints (codes "PONG\n")
          ∷ [];
      exit = exits 0;
    }
ping-session_example =
    ping-session demo 5 6 port_opens open_daemon 7 (singles (conversation_bytes (codes "PING")))
      short_link_text (singles-IsChunked (conversation_bytes (codes "PING")))
      (flatten-singles (conversation_bytes (codes "PING")))

status-session_example :
    session (codes "status") [] (received (singles (conversation_bytes (codes "STATUS"))))
    ≡ record {
      shown =
          prints (codes "Daemon: exn_gsd\n")
          ∷ shown_link open_daemon
          ∷ sends (encode (command_frame (codes "STATUS")))
          ∷ shown_link open_daemon
          ∷ [];
      exit = exits (failed open_daemon);
    }
status-session_example =
    status-session demo 5 6 port_opens open_daemon 7 (singles (conversation_bytes (codes "STATUS")))
      short_link_text (singles-IsChunked (conversation_bytes (codes "STATUS")))
      (flatten-singles (conversation_bytes (codes "STATUS")))

-- A Hello, and an error behind it.
abbrev refusal : List Frame
refusal =
    record { type = hello; payload = pack_string (codes "d") }
    ∷ record { type = error; payload = pack_string (codes "no") }
    ∷ []

refusal-IsWellFormed : All IsWellFormed refusal
unfolding type_code of_code pack_string append_u32
refusal-IsWellFormed =
    (((omega arith, refl), omega arith), (((omega arith, refl), omega arith), tt))

session-told_example :
    session (codes "raw") (codes "1F0a" ∷ []) (received (singles (encode_all refusal)))
    ≡ session_told (codes "raw") (codes "1F0a" ∷ []) refusal
session-told_example =
    session-told (codes "raw") (codes "1F0a" ∷ []) (singles (encode_all refusal)) refusal
      refusal-IsWellFormed (singles-IsChunked (encode_all refusal))
      (flatten-singles (encode_all refusal))

-- Two clients, of which the first has gone.
abbrev clients : List Call
clients =
    accepted none ∷ accepted (some (codes "Too many open files")) ∷ accepted none ∷ expires 0 ∷ []

broadcast-once_example :
    posts_to 1 (broadcast (run new_server clients) (command_frame (codes "PING"))).1 ≡ (
      if is_live (lock (run new_server clients).store 1)
      then encode (command_frame (codes "PING")) ∷ []
      else [])
broadcast-once_example = broadcast-once clients (command_frame (codes "PING")) 1

abbrev config : AppConfig
config = record default_config {
  listen_port = 7000;
  serial_port = codes "/dev/ttyACM0";
  verbose = true;
}

parse_args-print_args_example : parse_args default_config (print_args config) ≡ runs config
parse_args-print_args_example =
    parse_args-print_args config
      (refl, (refl, (refl, (refl, (refl, (refl, (refl, (refl, (refl, tt))))))))) (omega arith)
      (omega arith)
