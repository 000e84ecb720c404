-- ===== src/Protocol.antt =====
-- shared/include/exn/shared/protocol.hpp and shared/src/protocol.cpp: the frames of the local IPC.
pub mod Bytes
pub mod Words
pub mod Frames
pub mod Stream
pub mod Strings
use exn_gs.Common.{
  ℕ, ◌+◌, ◌%◌, ◌^◌, List, [], ◌∷◌, ◌++◌, Option, none, some, Text, length, take, drop, ltb, ◌==◌,
  if◌then◌else◌,
}
use Bytes.{append_u16, append_u32, append_u64, at, read_u16, read_u32, read_u64}

-- `unnamed` is a value of the enumeration's uint16_t that no enumerator has.
pub data MsgType : Type 0 where
  hello link_state packet_rx packet_tx error command query query_result packet_send : MsgType
  unnamed : ℕ → MsgType

-- `static_cast<uint16_t>(t)`
unfoldable pub type_code : MsgType → ℕ
type_code hello = 1
type_code link_state = 2
type_code packet_rx = 3
type_code packet_tx = 4
type_code error = 255
type_code command = 10
type_code query = 11
type_code query_result = 12
type_code packet_send = 13
type_code (unnamed n) = n

-- `static_cast<MsgType>(n)`
unfoldable pub of_code : ℕ → MsgType
of_code n =
    if n == 1
    then hello
    else if n == 2
    then link_state
    else if n == 3
    then packet_rx
    else if n == 4
    then packet_tx
    else if n == 255
    then error
    else if n == 10
    then command
    else if n == 11
    then query
    else if n == 12
    then query_result
    else if n == 13
    then packet_send
    else unnamed n

pub record Frame : Type 0 where
  pub type : MsgType
  pub payload : List ℕ

pub record PacketMeta : Type 0 where
  pub ts_ns : ℕ
  pub ver : ℕ
  pub typ : ℕ
  pub shf : ℕ
  pub apid : ℕ
  pub seqf : ℕ
  pub seq : ℕ
  pub len : ℕ
  pub svc : ℕ
  pub ssvc : ℕ

-- `PacketMeta{}`
abbrev pub no_meta : PacketMeta
no_meta = record {
  ts_ns = 0;
  ver = 0;
  typ = 0;
  shf = 0;
  apid = 0;
  seqf = 0;
  seq = 0;
  len = 0;
  svc = 0;
  ssvc = 0;
}

-- The sum is a uint32_t.
abbrev pub add_u32 : ℕ → ℕ → ℕ
add_u32 a b = (a + b) % 2 ^ 32

unfoldable pub encode : Frame → List ℕ
encode f =
    let len = add_u32 2 (length f.payload % 2 ^ 32) in
    append_u16 (append_u32 [] len) (type_code f.type) ++ f.payload

-- What `try_decode` does: it answers false and leaves the buffer, or takes a frame off it, or
-- copies from behind the end of the buffer, which C++ leaves undefined.
pub data Decoded : Type 0 where
  more : Decoded
  got : Frame → List ℕ → Decoded
  fault : Decoded

-- `4u + len` wraps in the comparison, and does not where the iterators are advanced.
unfoldable pub try_decode : List ℕ → Decoded
try_decode buffer =
    let len = read_u32 buffer in
    if ltb (length buffer) 4
    then more
    else if ltb len 2
    then more
    else if ltb (length buffer) (add_u32 4 len)
    then more
    else if ltb (length buffer) (4 + len)
    then fault
    else got
        (record {
          type = of_code (read_u16 (drop 4 buffer));
          payload = drop 6 (take (4 + len) buffer);
        })
        (drop (4 + len) buffer)

unfoldable pub pack_string : Text → List ℕ
pack_string s = append_u32 [] (length s % 2 ^ 32) ++ s

-- `bad` is the answer false; `overrun` is a copy from behind the end of the vector.
pub data Unpacked {ℓ} (A : Type ℓ) : Type ℓ where
  unpacked : A → Unpacked A
  bad : Unpacked A
  overrun : Unpacked A

unfoldable pub unpack_string : List ℕ → Unpacked Text
unpack_string p =
    let n = read_u32 p in
    if ltb (length p) 4
    then bad
    else if ltb (length p) (add_u32 4 n)
    then bad
    else if ltb (length p) (4 + n)
    then overrun
    else unpacked (drop 4 (take (4 + n) p))

unfoldable pub pack_packet_meta : PacketMeta → Text → List ℕ
pack_packet_meta m desc =
    let p = append_u64 [] m.ts_ns ++ m.ver ∷ m.typ ∷ m.shf ∷ m.seqf ∷ [] in
    let p = append_u16 (append_u16 (append_u16 p m.apid) m.seq) m.len in
    append_u16 (p ++ m.svc ∷ m.ssvc ∷ []) (length desc % 2 ^ 16) ++ desc

-- `none` is the answer false.
unfoldable pub unpack_packet_meta : List ℕ → Option (PacketMeta × Text)
unpack_packet_meta p =
    let dlen = read_u16 (drop 20 p) in
    if ltb (length p) 22
    then none
    else if ltb (length p) (22 + dlen)
    then none
    else some (
      record {
        ts_ns = read_u64 p;
        ver = at p 8;
        typ = at p 9;
        shf = at p 10;
        seqf = at p 11;
        apid = read_u16 (drop 12 p);
        seq = read_u16 (drop 14 p);
        len = read_u16 (drop 16 p);
        svc = at p 18;
        ssvc = at p 19;
      },
      drop 22 (take (22 + dlen) p),
    )
