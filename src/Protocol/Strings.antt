-- ===== src/Protocol/Strings.antt =====
-- Round trips of the string and metadata payloads.
use exn_gs.Common.{
  ℕ, suc, ◌+◌, ◌%◌, ◌^◌, ◌≤◌, ◌<◌, ◌≡◌, refl, ◌∙◌, arith, List, [], ◌∷◌, ◌++◌, length,
  length-append, take, take-append_all, some, Text, drop-take_add, ◌⊎◌, inl, inr,
}
use exn_gs.Protocol.Bytes.{append_u16, append_u32, append_u64, read_u16, read_u32}
use exn_gs.Protocol.Words.{read_u16-append_u16, read_u32-append_u32, read_u64-append_u64}
use exn_gs.Protocol.{
  PacketMeta, unpacked, overrun, pack_string, unpack_string, pack_packet_meta, unpack_packet_meta,
  Unpacked, bad,
}

-- A text comes back as it was packed, also with bytes behind it: for a text of less than 2 ^ 32 - 4
-- bytes.
pub unpack_string-pack_string :
    (s : Text) (rest : List ℕ)
    → 4 + length s < 2 ^ 32
    → unpack_string (pack_string s ++ rest) ≡ unpacked s
unfolding unpack_string pack_string append_u32
unpack_string-pack_string s rest fits =
    let e : read_u32 (pack_string s ++ rest) ≡ length s =
      read_u32-append_u32 (length s % 2 ^ 32) (s ++ rest) ∙ omega arith in
    let end : 4 + length s ≡ suc (suc (suc (suc (length s)))) = omega arith in
    rw e (rw end (ground (arith, length-append s rest, take-append_all (length s) s rest refl)))

-- The size test of `unpack_string` wraps as that of `try_decode` does: with one of the four largest
-- size fields it copies from behind the end of every payload that is smaller than 4 GiB.
pub unpack_string_overrun :
    (p : List ℕ)
    → 4 ≤ length p
    → length p < 2 ^ 32
    → 2 ^ 32 ≤ 4 + read_u32 p
    → read_u32 p < 2 ^ 32
    → unpack_string p ≡ overrun
unfolding unpack_string
unpack_string_overrun p h k w u = ground arith

-- Every field of the metadata is in the range of its C++ type.
pub record IsMeta (m : PacketMeta) : Type 0 where
  pub ts_ns : m.ts_ns < 2 ^ 64
  pub apid : m.apid < 2 ^ 16
  pub seq : m.seq < 2 ^ 16
  pub len : m.len < 2 ^ 16

-- The metadata, within the widths of their fields, come back as they were packed. Of the
-- description its first `length desc % 2 ^ 16` bytes come back: all of it below 64 KiB.
pub unpack_packet_meta-pack :
    (m : PacketMeta) (desc : Text)
    → IsMeta m
    → unpack_packet_meta (pack_packet_meta m desc) ≡ some (m, take (length desc % 2 ^ 16) desc)
unfolding unpack_packet_meta pack_packet_meta append_u16 append_u32 append_u64
unpack_packet_meta-pack m desc v =
    let n = length desc % 2 ^ 16 in
    let end = append_u16 [] n ++ desc in
    let at_len = append_u16 [] m.len ++ m.svc ∷ m.ssvc ∷ end in
    let at_seq = append_u16 [] m.seq ++ at_len in
    let at_apid = append_u16 [] m.apid ++ at_seq in
    let whole = append_u64 [] m.ts_ns ++ m.ver ∷ m.typ ∷ m.shf ∷ m.seqf ∷ at_apid in
    let size : read_u16 end ≡ n = read_u16-append_u16 n desc ∙ omega arith in
    rw size (
      ground (
        arith,
        read_u64-append_u64 m.ts_ns (m.ver ∷ m.typ ∷ m.shf ∷ m.seqf ∷ at_apid),
        read_u16-append_u16 m.apid at_seq,
        read_u16-append_u16 m.seq at_len,
        read_u16-append_u16 m.len (m.svc ∷ m.ssvc ∷ end),
        drop-take_add 22 n whole,
      ))

pub Unpacked-cases :
    (u : Unpacked Text) → ((s : Text) × (u ≡ unpacked s)) ⊎ (u ≡ bad) ⊎ (u ≡ overrun)
Unpacked-cases (unpacked s) = inl (s, refl)
Unpacked-cases bad = inr (inl refl)
Unpacked-cases overrun = inr (inr refl)
