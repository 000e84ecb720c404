-- ===== src/Gsdctl.antt =====
-- tools/gsdctl/main.cpp: the command line client of the daemon. What the socket's reads give is an
-- argument; the connection has been made.
pub mod Hex
pub mod Arguments
pub mod Reading
pub mod Replies
pub mod Exchange
pub mod Service
use exn_gs.Common.{
  ℕ, zero, suc, ◌+◌, Bool, true, false, not, List, [], ◌∷◌, ◌++◌, Option, none, some, Text, codes,
  text_eq, starts_with, to_string, length, ◌==◌, if◌then◌else◌,
}
use exn_gs.Protocol.{
  MsgType, hello, link_state, packet_tx, error, command, query_result, packet_send, type_code,
  Frame, more, got, fault, try_decode, encode, pack_string, Unpacked, unpacked, bad, overrun,
  unpack_string, unpack_packet_meta,
}
use Hex.{decode_hex}

-- What a read of the socket gives: bytes, none of them at all, or an exception.
pub data Arrival : Type 0 where
  arrives : List ℕ → Arrival
  throws : Text → Arrival

pub data Output : Type 0 where
  prints warns : Text → Output
  sends : List ℕ → Output

-- `blocked` waits for a read that does not end; `fault` is a read from behind a buffer's end.
pub data ReadFrame : Type 0 where
  frame : Frame → List ℕ → List Arrival → ReadFrame
  closed blocked undefined : ReadFrame
  threw : Text → ReadFrame

unfoldable pub read_frame : List ℕ → List Arrival → ReadFrame
read_frame buffer [] = elim (try_decode buffer) [
  | got f rest ↦ frame f rest []
  | fault ↦ undefined
  | more ↦ blocked
]
read_frame buffer (throws message ∷ arrivals) = elim (try_decode buffer) [
  | got f rest ↦ frame f rest (throws message ∷ arrivals)
  | fault ↦ undefined
  | more ↦ threw message
]
read_frame buffer (arrives [] ∷ arrivals) = elim (try_decode buffer) [
  | got f rest ↦ frame f rest (arrives [] ∷ arrivals)
  | fault ↦ undefined
  | more ↦ closed
]
read_frame buffer (arrives (b ∷ bytes) ∷ arrivals) = elim (try_decode buffer) [
  | got f rest ↦ frame f rest (arrives (b ∷ bytes) ∷ arrivals)
  | fault ↦ undefined
  | more ↦ read_frame (buffer ++ b ∷ bytes) arrivals
]

-- A text of a payload, as it is shown; `none` is a read from behind the payload's end.
abbrev show_text : (Text → Output) → Text → Text → List ℕ → Option (List Output)
show_text stream front back payload = elim (unpack_string payload) [
  | unpacked text ↦ some (stream (front ++ text ++ back) ∷ [])
  | bad ↦ some []
  | overrun ↦ none
]

unfoldable pub print_frame : Frame → Option (List Output)
print_frame f = elim f.type [
  | hello ↦ show_text prints (codes "Daemon: ") (codes "\n") f.payload
  | link_state ↦ show_text prints (codes "Device link: ") (codes "\n") f.payload
  | query_result ↦ show_text prints [] (codes "\n") f.payload
  | error ↦ show_text warns (codes "Daemon error: ") (codes "\n") f.payload
  | packet_tx ↦ some (elim (unpack_packet_meta f.payload) [
    | none ↦ []
    | some (meta, desc) ↦
        prints (
          codes "Packet TX: APID="
          ++ to_string meta.apid
          ++ codes " SEQ="
          ++ to_string meta.seq
          ++ codes " SVC="
          ++ to_string meta.svc
          ++ codes " SSV="
          ++ to_string meta.ssvc
          ++ codes "\n")
        ∷ []
  ])
  | _ ↦ some []
]

pub data LinkExpectation : Type 0 where
  any connected disconnected : LinkExpectation

pub record Request : Type 0 where
  pub request : Frame
  pub expected : MsgType
  pub link_expectation : LinkExpectation

-- A request, or the error that is shown before the exit.
pub data Requested : Type 0 where
  requests : Request → Requested
  refuses : Text → Requested

abbrev commands : Text → MsgType → LinkExpectation → Requested
commands text expected expectation = requests (record {
  request = record { type = command; payload = pack_string text };
  expected = expected;
  link_expectation = expectation;
})

raw_packet : List Text → Requested
raw_packet [] = refuses (codes "Error: raw command requires one hex Space Packet\n")
raw_packet (hex ∷ args) = elim (decode_hex hex) [
  | none ↦ refuses (codes "Error: raw packet must contain an even number of hexadecimal digits\n")
  | some bytes ↦ requests (record {
    request = record { type = packet_send; payload = bytes };
    expected = packet_tx;
    link_expectation = any;
  })
]

unfoldable pub request_of : Text → List Text → Requested
unfolding raw_packet
request_of name args =
    if text_eq name (codes "ping")
    then commands (codes "PING") query_result any
    else if text_eq name (codes "status")
    then commands (codes "STATUS") link_state any
    else if text_eq name (codes "stats")
    then commands (codes "STATS") query_result any
    else if text_eq name (codes "connect")
    then commands (codes "CONNECT") link_state connected
    else if text_eq name (codes "disconnect")
    then commands (codes "DISCONNECT") link_state disconnected
    else if text_eq name (codes "reconnect")
    then commands (codes "RECONNECT") link_state connected
    else if text_eq name (codes "raw")
    then raw_packet args
    else refuses (codes "Unknown command: " ++ name ++ codes "\n")

-- What a loop does behind a frame: read on, or stop with an exit code.
pub data Verdict : Type 0 where
  read_on breaks : Verdict
  stops : ℕ → Verdict

-- The enumerators' numbers are compared.
abbrev pub same_type : MsgType → MsgType → Bool
same_type a b = type_code a == type_code b

unfoldable pub judge_state : LinkExpectation → Text → Verdict
judge_state expectation state =
    if starts_with state (codes "ERROR") then stops 1 else elim expectation [
      | any ↦ stops 0
      | connected ↦ if starts_with state (codes "CONNECTED") then stops 0 else read_on
      | disconnected ↦ if starts_with state (codes "DISCONNECTED") then stops 0 else read_on
    ]

-- The loop that waits for the reply.
unfoldable pub judge : Request → Frame → Verdict
unfolding judge_state
judge r f =
    if same_type f.type error
    then stops 1
    else if not (same_type f.type r.expected)
    then read_on
    else if same_type f.type link_state
    then elim (unpack_string f.payload) [
      | bad ↦ read_on
      | overrun ↦ breaks
      | unpacked state ↦ judge_state r.link_expectation state
    ]
    else stops 0

-- The loop that waits for the first link state.
unfoldable pub until_link : Frame → Verdict
until_link f = if same_type f.type link_state then stops 0 else read_on

-- How a loop ended: by its verdict, with what is left, or by the socket.
pub data Ended : Type 0 where
  done : ℕ → List ℕ → List Arrival → Ended
  closes blocks breaks_off no_fuel : Ended
  fails : Text → Ended

pub record Waited : Type 0 where
  pub printed : List Output
  pub ended : Ended

abbrev pub ends : Ended → Waited
ends e = record { printed = []; ended = e }

abbrev pub behind : List Output → Waited → Waited
behind outputs w = record w { printed = outputs ++ w.printed }

-- Frames are read and printed until the verdict stops; the fuel is a number of frames.
unfoldable pub read_until : (Frame → Verdict) → ℕ → List ℕ → List Arrival → Waited
read_until verdict zero buffer arrivals = ends no_fuel
read_until verdict (suc fuel) buffer arrivals = elim (read_frame buffer arrivals) [
  | closed ↦ ends closes
  | blocked ↦ ends blocks
  | undefined ↦ ends breaks_off
  | threw message ↦ ends (fails message)
  | frame f rest later ↦ elim (print_frame f) [
    | none ↦ ends breaks_off
    | some outputs ↦ elim (verdict f) [
      | stops code ↦ record { printed = outputs; ended = done code rest later }
      | breaks ↦ record { printed = outputs; ended = breaks_off }
      | read_on ↦ behind outputs (read_until verdict fuel rest later)
    ]
  ]
]

-- How the program ended.
pub data Exit : Type 0 where
  exits : ℕ → Exit
  hangs runs_off gives_up : Exit

pub record Outcome : Type 0 where
  pub shown : List Output
  pub exit : Exit

-- What follows a loop; the texts are those of a connection that has been closed and of `e.what()`.
abbrev pub follow : Text → Waited → (ℕ → List ℕ → List Arrival → Outcome) → Outcome
follow why w go = elim w.ended [
  | done code rest later ↦
      let o = go code rest later in record { shown = w.printed ++ o.shown; exit = o.exit }
  | closes ↦ record { shown = w.printed ++ warns why ∷ []; exit = exits 1 }
  | fails message ↦ record {
    shown = w.printed ++ warns (codes "Error: " ++ message ++ codes "\n") ∷ [];
    exit = exits 1;
  }
  | blocks ↦ record { shown = w.printed; exit = hangs }
  | breaks_off ↦ record { shown = w.printed; exit = runs_off }
  | no_fuel ↦ record { shown = w.printed; exit = gives_up }
]

abbrev pub total : List Arrival → ℕ
total [] = 0
total (arrives bytes ∷ arrivals) = length bytes + total arrivals
total (throws message ∷ arrivals) = total arrivals

unfoldable pub ask : ℕ → Requested → List ℕ → List Arrival → Outcome
ask fuel (refuses why) rest later = record { shown = warns why ∷ []; exit = exits 1 }
ask fuel (requests r) rest later =
    let w = read_until (judge r) fuel rest later in
    follow (codes "Error: daemon closed IPC before replying\n")
      (behind (sends (encode r.request) ∷ []) w)
      (λ code rest' later'. record { shown = []; exit = exits code })

-- The program behind its connection. A frame has six bytes at least, so the bytes are fuel enough.
unfoldable pub session : Text → List Text → List Arrival → Outcome
unfolding ask
session name args arrivals =
    let fuel = suc (total arrivals) in
    follow (codes "Error: daemon closed IPC during handshake\n")
      (read_until (λ f. stops 0) fuel [] arrivals)
      (λ code rest later.
        follow (codes "Error: daemon closed IPC before initial link state\n")
          (read_until until_link fuel rest later)
          (λ code' rest' later'. ask fuel (request_of name args) rest' later'))
