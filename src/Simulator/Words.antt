-- ===== src/Simulator/Words.antt =====
-- shared/include/exn/shared/exn_interfaces.h: reading back the words that the simulator's reports are
-- made of.
use Prim.Native.Nat.{bit_or}
use exn_gs.Common.{
  ℕ, ◌*◌, ◌/◌, ◌%◌, ◌^◌, ◌≡◌, arith, List, ◌++◌, drop, append_assoc, refl, ◌∙◌, ap, ◌+◌,
}
use exn_gs.Common.Bits.{bit_or_disjoint}
use exn_gs.Protocol.Bytes.{at, byte_at, read_u32, append_u32}
use exn_gs.Protocol.Words.{read_u32-append_u32}
use exn_gs.Simulator.{be_put_u16, be_put_u32, be_put_u64}

-- `exn_be_get_u16` and its like.
unfoldable be_get_u16 : List ℕ → ℕ
be_get_u16 p = bit_or (at p 0 * 2 ^ 8) (at p 1)

unfoldable be_get_u32 : List ℕ → ℕ
be_get_u32 p =
    bit_or (bit_or (bit_or (at p 0 * 2 ^ 24) (at p 1 * 2 ^ 16)) (at p 2 * 2 ^ 8)) (at p 3)

unfoldable be_get_u64 : List ℕ → ℕ
be_get_u64 p = bit_or (be_get_u32 p * 2 ^ 32) (be_get_u32 (drop 4 p))

be_get_u16-be_put_u16 : (v : ℕ) (rest : List ℕ) → be_get_u16 (be_put_u16 v ++ rest) ≡ v % 2 ^ 16
unfolding be_get_u16 be_put_u16
be_get_u16-be_put_u16 v rest =
    bit_or_disjoint 8 (byte_at v 8 * 2 ^ 8) (byte_at v 0) (omega arith) (omega arith) ∙ omega arith

be_get_u32-be_put_u32 : (v : ℕ) (rest : List ℕ) → be_get_u32 (be_put_u32 v ++ rest) ≡ v % 2 ^ 32
unfolding be_get_u32 be_put_u32 read_u32 append_u32
be_get_u32-be_put_u32 v rest = read_u32-append_u32 v rest

drop-be_put_u32 : (v : ℕ) (rest : List ℕ) → drop 4 (be_put_u32 v ++ rest) ≡ rest
unfolding be_put_u32
drop-be_put_u32 v rest = refl

be_get_u64_halves :
    (high low : ℕ) (rest : List ℕ)
    → be_get_u64 (be_put_u32 high ++ (be_put_u32 low ++ rest))
      ≡ high % 2 ^ 32 * 2 ^ 32 + low % 2 ^ 32
unfolding be_get_u64
be_get_u64_halves high low rest =
    let behind = be_put_u32 low ++ rest in
    let first = be_get_u32-be_put_u32 high behind in
    let second = ap be_get_u32 (drop-be_put_u32 high behind) ∙ be_get_u32-be_put_u32 low rest in
    ap (λ (x : ℕ). bit_or (x * 2 ^ 32) (be_get_u32 (drop 4 (be_put_u32 high ++ behind)))) first
    ∙ ap (bit_or (high % 2 ^ 32 * 2 ^ 32)) second
    ∙ bit_or_disjoint 32 (high % 2 ^ 32 * 2 ^ 32) (low % 2 ^ 32) (omega arith) (omega arith)

-- A 64-bit word, written as two halves, is read back, whatever stands behind it.
be_get_u64-be_put_u64 : (v : ℕ) (rest : List ℕ) → be_get_u64 (be_put_u64 v ++ rest) ≡ v % 2 ^ 64
unfolding be_put_u64
be_get_u64-be_put_u64 v rest =
    ap be_get_u64 (append_assoc (be_put_u32 (v / 2 ^ 32)) (be_put_u32 (v % 2 ^ 32)) rest)
    ∙ be_get_u64_halves (v / 2 ^ 32) (v % 2 ^ 32) rest
    ∙ omega arith
