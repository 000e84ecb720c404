-- ===== src/Protocol/Words.antt =====
-- Reading back the big-endian words that were appended.
use exn_gs.Common.{
  ℕ, ◌+◌, ◌*◌, ◌/◌, ◌%◌, ◌^◌, ◌≡◌, arith, List, [], ◌∷◌, ◌++◌, ◌≤◌, length, get_or-append_lt,
}
use exn_gs.Common.Bits.{bit_or_disjoint}
use exn_gs.Protocol.Bytes.{
  IsByte, byte_at, append_u16, append_u32, append_u64, read_u16, read_u32, read_u64,
}

pub read_u16_lem : (a b : ℕ) (p : List ℕ) → IsByte b → read_u16 (a ∷ b ∷ p) ≡ a * 256 + b
unfolding read_u16
read_u16_lem a b p h = bit_or_disjoint 8 (a * 2 ^ 8) b (omega arith) h

pub read_u32_lem :
    (a b c d : ℕ) (p : List ℕ)
    → IsByte b
    → IsByte c
    → IsByte d
    → read_u32 (a ∷ b ∷ c ∷ d ∷ p) ≡ a * 2 ^ 24 + b * 2 ^ 16 + c * 2 ^ 8 + d
unfolding read_u32
read_u32_lem a b c d p hb hc hd =
    rw (bit_or_disjoint 24 (a * 2 ^ 24) (b * 2 ^ 16) (omega arith) (omega arith)) (
      rw (bit_or_disjoint 16 (a * 2 ^ 24 + b * 2 ^ 16) (c * 2 ^ 8) (omega arith) (omega arith))
        (bit_or_disjoint 8 (a * 2 ^ 24 + b * 2 ^ 16 + c * 2 ^ 8) d (omega arith) hd))

pub read_u16-append_u16 : (x : ℕ) (p : List ℕ) → read_u16 (append_u16 [] x ++ p) ≡ x % 2 ^ 16
unfolding append_u16
read_u16-append_u16 x p =
    omega (arith, read_u16_lem (x / 2 ^ 8 % 256) (x / 2 ^ 0 % 256) p (omega arith))

pub read_u32-append_u32 : (x : ℕ) (p : List ℕ) → read_u32 (append_u32 [] x ++ p) ≡ x % 2 ^ 32
unfolding append_u32
read_u32-append_u32 x p = omega (
  arith,
  read_u32_lem (x / 2 ^ 24 % 256) (x / 2 ^ 16 % 256) (x / 2 ^ 8 % 256) (x / 2 ^ 0 % 256) p
      (omega arith) (omega arith) (omega arith),
)

-- The bytes below the top of `read_u64`, two at a time.
pub read_u64_lem :
    (a b c d e f g h : ℕ) (p : List ℕ)
    → IsByte b × IsByte c × IsByte d × IsByte e × IsByte f × IsByte g × IsByte h
    → read_u64 (a ∷ b ∷ c ∷ d ∷ e ∷ f ∷ g ∷ h ∷ p)
      ≡ a * 2 ^ 56 + b * 2 ^ 48 + c * 2 ^ 40 + d * 2 ^ 32 + e * 2 ^ 24 + f * 2 ^ 16 + g * 2 ^ 8 + h
unfolding read_u64
read_u64_lem a b c d e f g h p (hb, hc, hd, he, hf, hg, hh) =
    let s1 = a * 2 ^ 56 in
    let s2 = s1 + b * 2 ^ 48 in
    let s3 = s2 + c * 2 ^ 40 in
    let s4 = s3 + d * 2 ^ 32 in
    let s5 = s4 + e * 2 ^ 24 in
    let s6 = s5 + f * 2 ^ 16 in
    let s7 = s6 + g * 2 ^ 8 in
    rw (bit_or_disjoint 56 s1 (b * 2 ^ 48) (omega arith) (omega arith)) (
      rw (bit_or_disjoint 48 s2 (c * 2 ^ 40) (omega arith) (omega arith)) (
        rw (bit_or_disjoint 40 s3 (d * 2 ^ 32) (omega arith) (omega arith)) (
          rw (bit_or_disjoint 32 s4 (e * 2 ^ 24) (omega arith) (omega arith)) (
            rw (bit_or_disjoint 24 s5 (f * 2 ^ 16) (omega arith) (omega arith)) (
              rw (bit_or_disjoint 16 s6 (g * 2 ^ 8) (omega arith) (omega arith))
                (bit_or_disjoint 8 s7 h (omega arith) hh))))))

pub read_u64-append_u64 : (x : ℕ) (p : List ℕ) → read_u64 (append_u64 [] x ++ p) ≡ x % 2 ^ 64
unfolding append_u64
read_u64-append_u64 x p = omega (
  arith,
  read_u64_lem (byte_at x 56) (byte_at x 48) (byte_at x 40) (byte_at x 32) (byte_at x 24)
      (byte_at x 16) (byte_at x 8) (byte_at x 0) p (omega arith),
)

-- A word is read from its own bytes alone.
pub read_u16-append : (p q : List ℕ) → 2 ≤ length p → read_u16 (p ++ q) ≡ read_u16 p
unfolding read_u16
read_u16-append p q h =
    rw (get_or-append_lt p q 0 0 (omega arith), get_or-append_lt p q 1 0 (omega arith))

pub read_u32-append : (p q : List ℕ) → 4 ≤ length p → read_u32 (p ++ q) ≡ read_u32 p
unfolding read_u32
read_u32-append p q h = rw (
  get_or-append_lt p q 0 0 (omega arith),
  get_or-append_lt p q 1 0 (omega arith),
  get_or-append_lt p q 2 0 (omega arith),
  get_or-append_lt p q 3 0 (omega arith),
)
