-- ===== src/SerialLink.antt =====
-- daemon/include/exn/daemon/serial_link.hpp and daemon/src/serial_link.cpp: the device link. Every
-- method and completion handler is a function to the new state and what it does outside, in order.
-- What Boost.Asio answers (opened or not, an error message, bytes) is an argument.
pub mod World
pub mod Tally
pub mod Order
pub mod Errors
pub mod Fifo
pub mod Reconnects
use exn_gs.Common.{
  ℕ, ◌+◌, ◌%◌, ◌^◌, Bool, true, false, not, ◌&&◌, ◌||◌, List, [], ◌∷◌, ◌++◌, Option, none, some,
  Text, codes, to_string, starts_with, length, drop, ◌==◌, if◌then◌else◌,
}
use exn_gs.Common.Numbers.{stoi_u16}

pub record SerialLink : Type 0 where
  pub is_tcp : Bool
  pub tcp_host : Text
  pub tcp_port : ℕ
  pub port : Text
  pub opened : Bool
  pub connecting : Bool
  pub generation : ℕ
  pub detail : Text
  pub tx_queue : List (List ℕ)

-- An asynchronous operation with the generation that its handler captured.
pub data Pending : Type 0 where
  resolve connect read : ℕ → Pending
  write : ℕ → List ℕ → Pending
  -- a lambda that `write_bytes` posted
  posted : List ℕ → Pending

-- `starts` begins an asynchronous operation; the others call a callback.
pub data Effect : Type 0 where
  starts : Pending → Effect
  state_changes : Bool → Text → Effect
  fails : Text → Effect
  bytes_arrive : List ℕ → Effect

abbrev pub Result : Type 0
Result = SerialLink × List Effect

-- `tcp://HOST:PORT`, by the first colon behind the prefix.
pub data TcpUri : Type 0 where
  no_uri : TcpUri
  uri : Text → ℕ → TcpUri
  throws : TcpUri

with_host : ℕ → TcpUri → TcpUri
with_host c (uri host port) = uri (c ∷ host) port
with_host c u = u

split_host : Text → TcpUri
unfolding with_host
split_host [] = no_uri
split_host (c ∷ cs) =
    if c == b':'
    then elim (stoi_u16 cs) [ none ↦ throws | some port ↦ uri [] port ]
    else with_host c (split_host cs)

unfoldable pub parse_tcp_uri : Text → TcpUri
unfolding split_host
parse_tcp_uri s = if starts_with s (codes "tcp://") then split_host (drop 6 s) else no_uri

-- The constructor; `none` where std::stoi throws.
unfoldable pub new_link : Text → Option SerialLink
unfolding parse_tcp_uri
new_link port =
    let fresh : SerialLink = record {
      is_tcp = false;
      tcp_host = [];
      tcp_port = 0;
      port = port;
      opened = false;
      connecting = false;
      generation = 0;
      detail = [];
      tx_queue = [];
    } in
    elim (parse_tcp_uri port) [
      | no_uri ↦ some fresh
      | uri host number ↦ some (record fresh { is_tcp = true; tcp_host = host; tcp_port = number })
      | throws ↦ none
    ]

-- `++generation_`
abbrev pub next_generation : SerialLink → ℕ
next_generation l = (l.generation + 1) % 2 ^ 64

unfoldable pub do_read : SerialLink → ℕ → Result
do_read l generation =
    if not (generation == l.generation) || not l.opened
    then (l, [])
    else (l, starts (read generation) ∷ [])

-- The messages with which opening the serial port and setting its speed failed, if they did.
pub record PortAnswer : Type 0 where
  pub open_error : Option Text
  pub baud_error : Option Text

open_serial : SerialLink → ℕ → PortAnswer → Result
unfolding do_read
open_serial l generation answer = elim answer.open_error [
  | some message ↦
      (record l { connecting = false }, fails (codes "serial open failed: " ++ message) ∷ [])
  | none ↦ elim answer.baud_error [
    | some message ↦
        (record l { connecting = false }, fails (codes "serial baud set failed: " ++ message) ∷ [])
    | none ↦
        let ready = record l { connecting = false; opened = true; detail = l.port } in
        let (l', effects) = do_read ready generation in (l', state_changes true l.port ∷ effects)
  ]
]

no_port : Text
no_port = codes "no port configured (use --port /dev/ttyACM0 or --port tcp://HOST:PORT)"

-- `port_.empty()`
start_serial : Text → SerialLink → ℕ → PortAnswer → Result
unfolding open_serial no_port
start_serial [] l generation answer = (record l { connecting = false }, fails no_port ∷ [])
start_serial (c ∷ cs) l generation answer = open_serial l generation answer

unfoldable pub start : SerialLink → PortAnswer → Result
unfolding start_serial
start l answer =
    if l.opened || l.connecting
    then (l, [])
    else let generation = next_generation l in
      let begun = record l { generation = generation; connecting = true } in
      if l.is_tcp
      then (
        record begun { detail = codes "tcp://" ++ l.tcp_host ++ codes ":" ++ to_string l.tcp_port },
        starts (resolve generation) ∷ [],
      )
      else start_serial l.port begun generation answer

unfoldable pub stop : SerialLink → Result
stop l = (
  record l { generation = next_generation l; opened = false; connecting = false; tx_queue = [] },
  state_changes false l.detail ∷ [],
)

unfoldable pub handle_io_error : SerialLink → Text → Text → ℕ → Result
handle_io_error l context message generation =
    if not (generation == l.generation) then (l, []) else (
      record l { opened = false; connecting = false; tx_queue = [] },
      fails (context ++ codes ": " ++ message) ∷ [],
    )

-- Completion handlers: `some message` is an error code.
unfoldable pub on_resolved : SerialLink → ℕ → Option Text → Result
unfolding handle_io_error
on_resolved l generation ec = if not (generation == l.generation) then (l, []) else elim ec [
  | some message ↦ handle_io_error l (codes "tcp resolve failed") message generation
  | none ↦ (l, starts (connect generation) ∷ [])
]

unfoldable pub on_connected : SerialLink → ℕ → Option Text → Result
unfolding handle_io_error do_read
on_connected l generation ec = if not (generation == l.generation) then (l, []) else elim ec [
  | some message ↦ handle_io_error l (codes "tcp connect failed") message generation
  | none ↦
      let ready = record l { connecting = false; opened = true } in
      let (l', effects) = do_read ready generation in (l', state_changes true l.detail ∷ effects)
]

-- Of the serial port and of the socket, by `is_tcp`.
unfoldable pub on_read : SerialLink → ℕ → Option Text → List ℕ → Result
unfolding handle_io_error do_read
on_read l generation ec bytes = if not (generation == l.generation) then (l, []) else elim ec [
  | some message ↦
      handle_io_error l (if l.is_tcp then codes "tcp read failed" else codes "serial read failed")
        message generation
  | none ↦
      let (l', effects) = do_read l generation in
      (l', if length bytes == 0 then effects else bytes_arrive bytes ∷ effects)
]

-- The front of the queue is written and stays there until the write has completed.
write_front : SerialLink → ℕ → List (List ℕ) → Result
write_front l generation [] = (l, [])
write_front l generation (bytes ∷ queue) = (l, starts (write generation bytes) ∷ [])

unfoldable pub do_write : SerialLink → ℕ → Result
unfolding write_front
do_write l generation =
    if not (generation == l.generation) || not l.opened
    then (l, [])
    else write_front l generation l.tx_queue

unfoldable pub on_written : SerialLink → ℕ → Option Text → Result
unfolding handle_io_error do_write
on_written l generation ec = if not (generation == l.generation) then (l, []) else elim ec [
  | some message ↦ handle_io_error l (codes "device write failed") message generation
  | none ↦ do_write (record l { tx_queue = drop 1 l.tx_queue }) generation
]

-- A null pointer and a count of 0 are the empty list.
unfoldable pub write_bytes : SerialLink → List ℕ → Result
write_bytes l [] = (l, [])
write_bytes l (b ∷ bytes) = (l, starts (posted (b ∷ bytes)) ∷ [])

-- The posted lambda.
unfoldable pub run_posted : SerialLink → List ℕ → Result
unfolding do_write
run_posted l bytes =
    if not l.opened
    then (l, [])
    else let queued = record l { tx_queue = l.tx_queue ++ bytes ∷ [] } in
      elim l.tx_queue [ [] ↦ do_write queued l.generation | _ ∷ _ ↦ (queued, []) ]
