-- ===== src/Common/Strings.antt =====
-- A std::string as the list of its bytes, and std::to_string on unsigned numbers.
use Prim.Native.Nat.{ℕ, zero, suc, ◌+◌, ◌/◌, ◌%◌, ◌≤◌, ◌<◌, ◌^◌}
use Prim.Native.Char.{code}
use Prim.Native.String.{String}
use mathlib.Core.Path.{◌≡◌, refl}
use mathlib.Core.Logic.{inl, inr}
use native.Mathlib.Nat.{pow-suc}
use native.Mathlib.Omega.{arith}
use mathlib.Core.Bool.{Bool, true, false, ◌&&◌}
use mathlib.Core.List.{List, [], ◌∷◌, ◌++◌}
use exn_gs.Common.Lists.{All, All-append, length, length-append}
use exn_gs.Common.Tests.{Bool-cases, lt→ltb, ltb, ◌==◌, if◌then◌else◌}

abbrev pub Text : Type 0
Text = List ℕ

-- The bytes of an ASCII literal.
abbrev pub codes : String → Text
codes String.[] = []
codes (String.◌∷◌ c s) = code c ∷ codes s

abbrev pub text_eq : Text → Text → Bool
text_eq [] [] = true
text_eq [] (y ∷ ys) = false
text_eq (x ∷ xs) [] = false
text_eq (x ∷ xs) (y ∷ ys) = x == y && text_eq xs ys

abbrev pub starts_with : Text → Text → Bool
starts_with xs [] = true
starts_with [] (p ∷ ps) = false
starts_with (x ∷ xs) (p ∷ ps) = x == p && starts_with xs ps

-- The decimal digits, with fuel for their count.
unfoldable pub decimal : ℕ → ℕ → Text
decimal zero n = []
decimal (suc fuel) n =
    let front = decimal fuel (n / 10) in
    if ltb n 10 then (48 + n) ∷ [] else front ++ (48 + n % 10) ∷ []

-- A uint64 has at most 20 digits.
unfoldable pub to_string : ℕ → Text
unfolding decimal
to_string n = decimal 20 n

abbrev pub IsDecimal : ℕ → Type 0
IsDecimal c = (48 ≤ c) × (c ≤ 57)

abbrev pub IsDigit : ℕ → Type 0
IsDigit c = 48 ≤ c

decimal-IsDigit : (fuel n : ℕ) → All IsDigit (decimal fuel n)
unfolding decimal
decimal-IsDigit zero n = tt
decimal-IsDigit (suc fuel) n = elim (Bool-cases (ltb n 10)) [
  | inl e ↦ rw e (omega arith, tt)
  | inr e ↦ rw e (
      All-append IsDigit (decimal fuel (n / 10)) ((48 + n % 10) ∷ [])
        (decimal-IsDigit fuel (n / 10)) (omega arith, tt))
]

pub to_string-IsDigit : (n : ℕ) → All IsDigit (to_string n)
unfolding to_string
to_string-IsDigit n = decimal-IsDigit 20 n

length-decimal : (fuel k n : ℕ) → n < 10 ^ suc k → length (decimal fuel n) ≤ suc k
unfolding decimal
length-decimal zero k n h = omega arith
length-decimal (suc fuel) zero n h = let e = lt→ltb n 10 (omega arith) in rw e (omega arith)
length-decimal (suc fuel) (suc k) n h = elim (Bool-cases (ltb n 10)) [
  | inl e ↦ rw e (omega arith)
  | inr e ↦
      let ih = length-decimal fuel k (n / 10) (omega (arith, pow-suc 10 (suc k))) in
      rw e (omega (arith, length-append (decimal fuel (n / 10)) ((48 + n % 10) ∷ []), ih))
]

-- A number of at most `suc k` digits.
pub length-to_string : (k n : ℕ) → n < 10 ^ suc k → length (to_string n) ≤ suc k
unfolding to_string
length-to_string k n h = length-decimal 20 k n h

to_string_runs : to_string 18446744073709551615 ≡ codes "18446744073709551615"
unfolding to_string
to_string_runs = refl
