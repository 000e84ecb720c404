-- ===== src/Framer.antt =====
-- shared/include/exn/shared/daemon/framer.hpp and shared/src/framer.cpp: CCSDS packets out of a
-- byte stream. `ccsds::buffer::declaredPacketSize` of the CCSDSPack library is the parameter
-- `declared_size`, `none` for its error.
pub mod Laws
pub mod Chunks
pub mod Packets
use exn_gs.Common.{
  ℕ, zero, suc, ◌+◌, ◌%◌, ◌^◌, Bool, true, false, ◌||◌, List, [], ◌∷◌, ◌++◌, Option, none, some,
  length, take, drop, ltb, if◌then◌else◌,
}

-- `on_packet_` is a callback that the framer only calls: the state says whether it is set, and
-- `push_bytes` returns the packets that it is called with, in order.
pub record Framer : Type 0 where
  pub acc : List ℕ
  pub on_packet : Bool
  pub framing_errors : ℕ

-- A framer with its callback set.
abbrev pub new_framer : Framer
new_framer = record { acc = []; on_packet = true; framing_errors = 0 }

-- One round of the loop: return, drop a byte, or take a packet.
pub data Round : Type 0 where
  stop : Round
  skip : Round
  take_packet : ℕ → Round

abbrev pub skip_byte : Framer → Framer
skip_byte f = record f { acc = drop 1 f.acc; framing_errors = (f.framing_errors + 1) % 2 ^ 64 }

module _ (declared_size : List ℕ → Option ℕ) where
  unfoldable pub round : List ℕ → Round
  round acc = if ltb (length acc) 6 then stop else elim (declared_size acc) [
    | none ↦ skip
    | some total ↦
        if ltb total 7 || ltb 65542 total
        then skip
        else if ltb (length acc) total
        then stop
        else take_packet total
  ]

  -- `while (true)`, with fuel: every round but the last takes a byte off `acc` at least.
  unfoldable pub frame_loop : ℕ → Framer → Framer × List (List ℕ)
  frame_loop zero f = (f, [])
  frame_loop (suc fuel) f = elim (round f.acc) [
    | stop ↦ (f, [])
    | skip ↦ frame_loop fuel (skip_byte f)
    | take_packet total ↦
        let (f', packets) = frame_loop fuel (record f { acc = drop total f.acc }) in
        (f', if f.on_packet then take total f.acc ∷ packets else packets)
  ]

  unfoldable pub run_rounds : Framer → Framer × List (List ℕ)
  run_rounds f = frame_loop (suc (length f.acc)) f

  -- A null pointer and a count of 0 are the empty list.
  unfoldable pub push_bytes : Framer → List ℕ → Framer × List (List ℕ)
  push_bytes f [] = (f, [])
  push_bytes f (b ∷ bytes) = run_rounds (record f { acc = f.acc ++ b ∷ bytes })

  unfoldable pub push_all : Framer → List (List ℕ) → Framer × List (List ℕ)
  push_all f [] = (f, [])
  push_all f (chunk ∷ chunks) =
      let (f', packets) = push_bytes f chunk in
      let (f'', later) = push_all f' chunks in (f'', packets ++ later)
