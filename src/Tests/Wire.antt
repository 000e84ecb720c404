-- ===== src/Tests/Wire.antt =====
-- Concrete frames and payloads.
use exn_gs.Common.{
  ℕ, ◌^◌, ◌≤◌, ◌+◌, ◌<◌, ◌≡◌, refl, arith, false, List, [], ◌∷◌, some, codes, take, ◌%◌,
}
use exn_gs.Protocol.{
  command, link_state, Frame, PacketMeta, no_meta, encode, try_decode, more, fault,
  pack_packet_meta, unpack_packet_meta, type_code, of_code,
}
use exn_gs.Protocol.Frames.{try_decode_overrun, IsSendable}
use exn_gs.Protocol.Strings.{unpack_packet_meta-pack}
use exn_gs.Protocol.Stream.{receive_all}
use exn_gs.Protocol.Stream.Chunks.{receive_all-encode_all, encode_all}
use mathlib.Core.List.{flatten}
use exn_gs.Protocol.Bytes.{read_u32, append_u16, append_u32}

abbrev status_frame : Frame
status_frame = record { type = command; payload = 0 ∷ 0 ∷ 0 ∷ 1 ∷ b'A' ∷ [] }

abbrev empty_frame : Frame
empty_frame = record { type = link_state; payload = [] }

status_frame-IsSendable : IsSendable command
unfolding type_code of_code
status_frame-IsSendable = (omega arith, refl)

link_state-IsSendable : IsSendable link_state
unfolding type_code of_code
link_state-IsSendable = (omega arith, refl)

one_byte : read_u32 (0 ∷ 0 ∷ 0 ∷ 1 ∷ []) < 2
unfolding read_u32
one_byte = omega arith

all_ones_wraps : 2 ^ 32 ≤ 4 + read_u32 (255 ∷ 255 ∷ 255 ∷ 255 ∷ [])
unfolding read_u32
all_ones_wraps = omega arith

all_ones_fits : read_u32 (255 ∷ 255 ∷ 255 ∷ 255 ∷ []) < 2 ^ 32
unfolding read_u32
all_ones_fits = omega arith

-- The bytes of the two frames, in three pieces.
abbrev pieces : List (List ℕ)
pieces =
    (0 ∷ 0 ∷ 0 ∷ 7 ∷ 0 ∷ []) ∷ (10 ∷ 0 ∷ 0 ∷ 0 ∷ 1 ∷ b'A' ∷ 0 ∷ 0 ∷ []) ∷ (0 ∷ 2 ∷ 0 ∷ 2 ∷ []) ∷ []

pieces_lem : flatten pieces ≡ encode_all (status_frame ∷ empty_frame ∷ [])
unfolding encode flatten append_u16 append_u32 type_code
pieces_lem = refl

receive_all-encode_all_example :
    receive_all [] pieces
    ≡ record { frames = status_frame ∷ empty_frame ∷ []; rxbuf = []; broken = false }
receive_all-encode_all_example =
    receive_all-encode_all (status_frame ∷ empty_frame ∷ []) pieces
      ((status_frame-IsSendable, omega arith), ((link_state-IsSendable, omega arith), tt))
      pieces_lem

pieces_whole : (receive_all [] pieces).broken ≡ false
pieces_whole = rw receive_all-encode_all_example refl

nothing_waits : try_decode [] ≡ more
unfolding try_decode
nothing_waits = refl

try_decode_overrun_example : try_decode (255 ∷ 255 ∷ 255 ∷ 255 ∷ []) ≡ fault
try_decode_overrun_example =
    try_decode_overrun (255 ∷ 255 ∷ 255 ∷ 255 ∷ []) (omega arith) (omega arith) all_ones_wraps
      all_ones_fits

abbrev some_meta : PacketMeta
some_meta = record no_meta { ts_ns = 5000000000; apid = 256; seq = 16383; len = 4 }

unpack_packet_meta-pack_example :
    unpack_packet_meta (pack_packet_meta some_meta (codes "RX"))
    ≡ some (some_meta, take (2 % 2 ^ 16) (codes "RX"))
unpack_packet_meta-pack_example =
    unpack_packet_meta-pack some_meta (codes "RX")
      (record { ts_ns = omega arith; apid = omega arith; seq = omega arith; len = omega arith })
