-- ===== src/Common/Numbers.antt =====
-- std::stoi, and the cast of its result to uint16_t.
use exn_gs.Common.Lists.{All, All-append}
use Prim.Native.Nat.{ℕ, zero, suc, ◌+◌, ◌-◌, ◌*◌, ◌/◌, ◌%◌, ◌^◌, ◌<◌}
use mathlib.Core.Path.{◌≡◌, refl, ap, ◌∙◌}
use mathlib.Core.Logic.{inl, inr}
use mathlib.Core.Bool.{Bool, true, false, ◌&&◌, ◌||◌}
use mathlib.Core.Option.{Option, none, some}
use mathlib.Core.List.{[], ◌∷◌, ◌++◌}
use native.Mathlib.Nat.{pow-suc}
use native.Mathlib.Omega.{arith}
use exn_gs.Common.Tests.{Bool-cases, ltb→lt, lt→ltb, ltb, leb, ◌==◌, if◌then◌else◌}
use exn_gs.Common.Strings.{Text, codes, IsDecimal, decimal, to_string}

is_space : ℕ → Bool
is_space c = c == 32 || leb 9 c && leb c 13

is_digit : ℕ → Bool
is_digit c = leb 48 c && leb c 57

skip_spaces : Text → Text
unfolding is_space
skip_spaces [] = []
skip_spaces (c ∷ cs) = if is_space c then skip_spaces cs else c ∷ cs

-- The value of the leading digits; `none` if there is none.
read_digits : Option ℕ → Text → Option ℕ
unfolding is_digit
read_digits seen [] = seen
read_digits none (c ∷ cs) = if is_digit c then read_digits (some (c - 48)) cs else none
read_digits (some n) (c ∷ cs) =
    if is_digit c then read_digits (some (n * 10 + (c - 48))) cs else some n

-- `none` is the exception for no digits or a value outside int32_t.
signed_port : Bool → Option ℕ → Option ℕ
signed_port negative none = none
signed_port true (some n) = if ltb (2 ^ 31) n then none else some ((2 ^ 16 - n % 2 ^ 16) % 2 ^ 16)
signed_port false (some n) = if ltb n (2 ^ 31) then some (n % 2 ^ 16) else none

after_sign : Text → Option ℕ
unfolding signed_port read_digits
after_sign [] = none
after_sign (c ∷ cs) =
    if c == b'-'
    then signed_port true (read_digits none cs)
    else signed_port false (read_digits none (if c == b'+' then cs else c ∷ cs))

-- `static_cast<uint16_t>(std::stoi(s))`; `none` where std::stoi throws.
unfoldable pub stoi_u16 : Text → Option ℕ
unfolding skip_spaces after_sign
stoi_u16 s = after_sign (skip_spaces s)

-- The same for uint32_t and std::stoul, which wraps a negative number.
unsigned_baud : Bool → Option ℕ → Option ℕ
unsigned_baud negative none = none
unsigned_baud true (some n) = if ltb n (2 ^ 64) then some ((2 ^ 64 - n) % 2 ^ 32) else none
unsigned_baud false (some n) = if ltb n (2 ^ 64) then some (n % 2 ^ 32) else none

after_unsigned_sign : Text → Option ℕ
unfolding unsigned_baud read_digits
after_unsigned_sign [] = none
after_unsigned_sign (c ∷ cs) =
    if c == b'-'
    then unsigned_baud true (read_digits none cs)
    else unsigned_baud false (read_digits none (if c == b'+' then cs else c ∷ cs))

-- `static_cast<uint32_t>(std::stoul(s))`; `none` where std::stoul throws.
unfoldable pub stoul_u32 : Text → Option ℕ
unfolding skip_spaces after_unsigned_sign
stoul_u32 s = after_unsigned_sign (skip_spaces s)

IsDecimal-is_digit : (c : ℕ) → IsDecimal c → is_digit c ≡ true
unfolding is_digit
IsDecimal-is_digit c h = ground arith

-- A decimal digit more.
read_digits-snoc :
    (seen : Option ℕ) (xs : Text) (v n : ℕ)
    → All IsDecimal xs
    → read_digits seen xs ≡ some v
    → n < 10
    → read_digits seen (xs ++ (48 + n) ∷ []) ≡ some (v * 10 + n)
unfolding read_digits
read_digits-snoc none [] v n a e h = cc
read_digits-snoc (some w) [] v n a e h =
    let same : w ≡ v = cc in
    let digit = IsDecimal-is_digit (48 + n) (omega arith) in
    rw (digit, same) (ap (λ (k : ℕ). some (v * 10 + k)) (omega arith))
read_digits-snoc none (x ∷ xs) v n a e h =
    let digit = IsDecimal-is_digit x a.0 in
    let e' = rw digit at e in rw digit (read_digits-snoc (some (x - 48)) xs v n a.1 e' h)
read_digits-snoc (some w) (x ∷ xs) v n a e h =
    let digit = IsDecimal-is_digit x a.0 in
    let e' = rw digit at e in rw digit (read_digits-snoc (some (w * 10 + (x - 48))) xs v n a.1 e' h)

decimal-IsDecimal : (fuel n : ℕ) → All IsDecimal (decimal fuel n)
unfolding decimal
decimal-IsDecimal zero n = tt
decimal-IsDecimal (suc fuel) n = elim (Bool-cases (ltb n 10)) [
  | inl e ↦ let l = ltb→lt n 10 e in rw e ((omega arith, omega arith), tt)
  | inr e ↦ rw e (
      All-append IsDecimal (decimal fuel (n / 10)) ((48 + n % 10) ∷ [])
        (decimal-IsDecimal fuel (n / 10)) ((omega arith, omega arith), tt))
]

read_digits_below_10 : (fuel n : ℕ) → n < 10 → read_digits none (decimal (suc fuel) n) ≡ some n
unfolding decimal read_digits
read_digits_below_10 fuel n h =
    let digit = IsDecimal-is_digit (48 + n) (omega arith) in
    rw (lt→ltb n 10 h, digit) (ap (λ (k : ℕ). some k) (omega arith))

-- With fuel for all the digits.
read_digits-decimal :
    (fuel n : ℕ) → n < 10 ^ suc fuel → read_digits none (decimal (suc fuel) n) ≡ some n
unfolding decimal
read_digits-decimal zero n h = read_digits_below_10 zero n (omega arith)
read_digits-decimal (suc fuel) n h = elim (Bool-cases (ltb n 10)) [
  | inl e ↦ read_digits_below_10 (suc fuel) n (ltb→lt n 10 e)
  | inr e ↦
      let ih = read_digits-decimal fuel (n / 10) (omega (arith, pow-suc 10 (suc fuel))) in
      rw e (
        read_digits-snoc none (decimal (suc fuel) (n / 10)) (n / 10) (n % 10)
          (decimal-IsDecimal (suc fuel) (n / 10)) ih (omega arith)
        ∙ ap (λ (k : ℕ). some k) (omega arith))
]

stoi_u16-digits :
    (t : Text) (n : ℕ)
    → All IsDecimal t
    → read_digits none t ≡ some n
    → stoi_u16 t ≡ signed_port false (some n)
unfolding stoi_u16 after_sign skip_spaces is_space
stoi_u16-digits [] n a e = cc
stoi_u16-digits (c ∷ cs) n (c_digit, _) e =
    let space : (c == 32 || leb 9 c && leb c 13) ≡ false = ground arith in
    let minus : (c == b'-') ≡ false = ground arith in
    let plus : (c == b'+') ≡ false = ground arith in rw (space, minus, plus, e) refl

-- A port number comes back as it was printed.
pub stoi_u16-to_string : (port : ℕ) → port < 2 ^ 16 → stoi_u16 (to_string port) ≡ some port
unfolding to_string signed_port
stoi_u16-to_string port h =
    let small = lt→ltb port (2 ^ 31) (omega arith) in
    stoi_u16-digits (decimal 20 port) port (decimal-IsDecimal 20 port)
      (read_digits-decimal 19 port (omega arith))
    ∙ rw small (ap (λ (k : ℕ). some k) (omega arith))

stoul_u32-digits :
    (t : Text) (n : ℕ)
    → All IsDecimal t
    → read_digits none t ≡ some n
    → stoul_u32 t ≡ unsigned_baud false (some n)
unfolding stoul_u32 after_unsigned_sign skip_spaces is_space
stoul_u32-digits [] n a e = cc
stoul_u32-digits (c ∷ cs) n (c_digit, _) e =
    let space : (c == 32 || leb 9 c && leb c 13) ≡ false = ground arith in
    let minus : (c == b'-') ≡ false = ground arith in
    let plus : (c == b'+') ≡ false = ground arith in rw (space, minus, plus, e) refl

-- A baud rate comes back as it was printed.
pub stoul_u32-to_string : (baud : ℕ) → baud < 2 ^ 32 → stoul_u32 (to_string baud) ≡ some baud
unfolding to_string unsigned_baud
stoul_u32-to_string baud h =
    let small = lt→ltb baud (2 ^ 64) (omega arith) in
    stoul_u32-digits (decimal 20 baud) baud (decimal-IsDecimal 20 baud)
      (read_digits-decimal 19 baud (omega arith))
    ∙ rw small (ap (λ (k : ℕ). some k) (omega arith))

stoi_u16_runs : stoi_u16 (codes " 9000x") ≡ some 9000
unfolding stoi_u16
stoi_u16_runs = refl

stoi_u16_negative : stoi_u16 (codes "-1") ≡ some 65535
unfolding stoi_u16
stoi_u16_negative = refl
