-- ===== src/Protocol/Bytes.antt =====
-- Big-endian words in byte vectors: the static helpers at the top of shared/src/protocol.cpp.
-- A byte vector is a list of numbers; a pointer into one is the rest of the list from there.
use Prim.Native.Nat.{bit_or}
use exn_gs.Common.{ℕ, ◌*◌, ◌/◌, ◌%◌, ◌^◌, ◌<◌, List, [], ◌∷◌, ◌++◌, get_or}

abbrev pub IsByte : ℕ → Type 0
IsByte b = b < 256

-- `uint8_t((x >> k) & 0xFF)`
abbrev pub byte_at : ℕ → ℕ → ℕ
byte_at x k = x / 2 ^ k % 256

unfoldable pub append_u16 : List ℕ → ℕ → List ℕ
append_u16 v x = v ++ byte_at x 8 ∷ byte_at x 0 ∷ []

unfoldable pub append_u32 : List ℕ → ℕ → List ℕ
append_u32 v x = v ++ byte_at x 24 ∷ byte_at x 16 ∷ byte_at x 8 ∷ byte_at x 0 ∷ []

unfoldable pub append_u64 : List ℕ → ℕ → List ℕ
append_u64 v x =
    v
    ++ byte_at x 56
      ∷ byte_at x 48
      ∷ byte_at x 40
      ∷ byte_at x 32
      ∷ byte_at x 24
      ∷ byte_at x 16
      ∷ byte_at x 8
      ∷ byte_at x 0
      ∷ []

-- `p[i]`; every caller has compared the length before.
abbrev pub at : List ℕ → ℕ → ℕ
at p i = get_or p i 0

unfoldable pub read_u16 : List ℕ → ℕ
read_u16 p = bit_or (at p 0 * 2 ^ 8) (at p 1)

unfoldable pub read_u32 : List ℕ → ℕ
read_u32 p = bit_or (bit_or (bit_or (at p 0 * 2 ^ 24) (at p 1 * 2 ^ 16)) (at p 2 * 2 ^ 8)) (at p 3)

unfoldable pub read_u64 : List ℕ → ℕ
read_u64 p =
    bit_or
      (bit_or
        (bit_or
          (bit_or
            (bit_or (bit_or (bit_or (at p 0 * 2 ^ 56) (at p 1 * 2 ^ 48)) (at p 2 * 2 ^ 40))
              (at p 3 * 2 ^ 32))
            (at p 4 * 2 ^ 24))
          (at p 5 * 2 ^ 16))
        (at p 6 * 2 ^ 8))
      (at p 7)
