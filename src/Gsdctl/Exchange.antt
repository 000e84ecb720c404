-- ===== src/Gsdctl/Exchange.antt =====
-- tools/gsdctl/main.cpp: what the client makes of the frames that the daemon sends to it.
use exn_gs.Common.{
  ℕ, ◌+◌, ◌^◌, ◌<◌, ◌≡◌, refl, arith, List, [], ◌∷◌, ◌++◌, some, Text, codes, All, length,
  append-nil,
}
use exn_gs.Types.{LinkState, connected, disconnected}
use exn_gs.Types
use exn_gs.Protocol.{
  hello, link_state, query_result, command, type_code, of_code, Frame, encode, pack_string,
  unpack_string, unpacked,
}
use exn_gs.Protocol.Bytes.{append_u32}
use exn_gs.Protocol.Strings.{unpack_string-pack_string}
use exn_gs.Protocol.Stream.Chunks.{IsWellFormed}
use exn_gs.App.{Daemon, with_detail, link_state_to_string}
use exn_gs.Gsdctl
use exn_gs.Gsdctl.{
  show_text, Request, prints, sends, print_frame, stops, read_on, until_link, judge, judge_state,
  request_of, Outcome, exits, session,
}
use exn_gs.Gsdctl.Reading.{tell, finished}
use exn_gs.Gsdctl.Replies.{session_told}

-- What a session sends to its client of its own (IpcSession::start).
abbrev pub hello_frame : Frame
hello_frame = record { type = hello; payload = pack_string (codes "exn_gsd") }

abbrev pub command_frame : Text → Frame
command_frame text = record { type = command; payload = pack_string text }

-- The link's state as the daemon tells it.
abbrev pub link_text : Daemon → Text
link_text d = with_detail (link_state_to_string d.state.snap.link) d.state.snap.link_detail

pub unpack_short : (s : Text) → 4 + length s < 2 ^ 32 → unpack_string (pack_string s) ≡ unpacked s
unpack_short s h = rw (append-nil (pack_string s)) at (unpack_string-pack_string s [] h)

-- A text that fits is shown whole.
show_text-pack_string :
    (front s : Text)
    → 4 + length s < 2 ^ 32
    → show_text prints front (codes "\n") (pack_string s)
      ≡ some (prints (front ++ s ++ codes "\n") ∷ [])
show_text-pack_string front s h = rw (unpack_short s h, show_text) refl

print_hello : print_frame hello_frame ≡ some (prints (codes "Daemon: exn_gsd\n") ∷ [])
unfolding print_frame
print_hello = show_text-pack_string (codes "Daemon: ") (codes "exn_gsd") (omega arith)

abbrev pub pong : Frame
pong = record { type = query_result; payload = pack_string (codes "PONG") }

print_pong : print_frame pong ≡ some (prints (codes "PONG\n") ∷ [])
unfolding print_frame
print_pong = show_text-pack_string [] (codes "PONG") (omega arith)

pub pong-IsWellFormed : IsWellFormed pong
unfolding type_code of_code pack_string append_u32
pong-IsWellFormed = ((omega arith, refl), omega arith)

hello_told :
    (fs : List Frame)
    → tell (λ f. stops 0) (hello_frame ∷ fs)
      ≡ record { printed = prints (codes "Daemon: exn_gsd\n") ∷ []; result = finished 0 fs }
hello_told fs = rw (print_hello, tell) refl

judge_failed :
    (l : LinkState) (detail : Text)
    → judge_state Gsdctl.LinkExpectation.any (with_detail (link_state_to_string l) detail)
      ≡ stops (elim l [ Types.LinkState.error ↦ 1 | _ ↦ 0 ])
unfolding judge_state link_state_to_string with_detail
judge_failed connected [] = refl
judge_failed connected (c ∷ cs) = refl
judge_failed disconnected [] = refl
judge_failed disconnected (c ∷ cs) = refl
judge_failed Types.LinkState.error [] = refl
judge_failed Types.LinkState.error (c ∷ cs) = refl

abbrev status_request : Request
status_request = record {
  request = command_frame (codes "STATUS");
  expected = link_state;
  link_expectation = Gsdctl.LinkExpectation.any;
}

module _ (d : Daemon) where
  abbrev pub link_frame : Frame
  link_frame = record { type = link_state; payload = pack_string (link_text d) }

  pub link_frame-IsWellFormed : 8 + length (link_text d) < 2 ^ 31 → IsWellFormed link_frame
  unfolding type_code of_code pack_string append_u32
  link_frame-IsWellFormed h = ((omega arith, refl), omega arith)

  abbrev pub shown_link : Gsdctl.Output
  shown_link = prints (codes "Device link: " ++ link_text d ++ codes "\n")

  print_link : 8 + length (link_text d) < 2 ^ 31 → print_frame link_frame ≡ some (shown_link ∷ [])
  unfolding print_frame
  print_link h = show_text-pack_string (codes "Device link: ") (link_text d) (omega arith)

  -- The exit code of `status`.
  abbrev pub failed : ℕ
  failed = elim d.state.snap.link [ Types.LinkState.error ↦ 1 | _ ↦ 0 ]

  judge_link : 8 + length (link_text d) < 2 ^ 31 → judge status_request link_frame ≡ stops failed
  unfolding judge type_code
  judge_link h =
      rw (unpack_short (link_text d) (omega arith))
        (judge_failed d.state.snap.link d.state.snap.link_detail)

  until_told :
      (fs : List Frame)
      → 8 + length (link_text d) < 2 ^ 31
      → tell until_link (link_frame ∷ fs)
        ≡ record { printed = shown_link ∷ []; result = finished 0 fs }
  unfolding until_link type_code
  until_told fs h = rw (print_link h, tell) refl

  reply_told :
      (fs : List Frame)
      → 8 + length (link_text d) < 2 ^ 31
      → tell (judge status_request) (link_frame ∷ fs)
        ≡ record { printed = shown_link ∷ []; result = finished failed fs }
  reply_told fs h = rw (print_link h, judge_link h, tell) refl

  pub told_ping :
      8 + length (link_text d) < 2 ^ 31
      → session_told (codes "ping") [] (hello_frame ∷ link_frame ∷ pong ∷ []) ≡ record {
        shown =
            prints (codes "Daemon: exn_gsd\n")
            ∷ shown_link
            ∷ sends (encode (command_frame (codes "PING")))
            ∷ prints (codes "PONG\n")
            ∷ [];
        exit = exits 0;
      }
  unfolding until_link judge request_of type_code
  told_ping h = rw (print_hello, print_link h, print_pong, session_told, tell) refl

  pub told_status :
      8 + length (link_text d) < 2 ^ 31
      → session_told (codes "status") [] (hello_frame ∷ link_frame ∷ link_frame ∷ []) ≡ record {
        shown =
            prints (codes "Daemon: exn_gsd\n")
            ∷ shown_link
            ∷ sends (encode (command_frame (codes "STATUS")))
            ∷ shown_link
            ∷ [];
        exit = exits failed;
      }
  unfolding request_of
  told_status h =
      rw
        (
          hello_told (link_frame ∷ link_frame ∷ []),
          until_told (link_frame ∷ []) h,
          reply_told [] h,
          session_told,
        )
        refl

  pub served-IsWellFormed :
      (f : Frame)
      → 8 + length (link_text d) < 2 ^ 31
      → IsWellFormed f
      → All IsWellFormed (hello_frame ∷ link_frame ∷ f ∷ [])
  unfolding type_code of_code pack_string append_u32
  served-IsWellFormed f h w =
      (((omega arith, refl), omega arith), (link_frame-IsWellFormed h, (w, tt)))
