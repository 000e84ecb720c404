-- ===== src/Mission/Codes.antt =====
-- shared/include/exn/shared/exn_interfaces.h: an enumeration, or a group of defined constants, as its
-- names and values.
use Prim.Native.String.{String}
use exn_gs.Common.{
  ℕ, ◌^◌, ◌<◌, ◌≡◌, refl, arith, Bool, true, false, ◌&&◌, not, List, [], ◌∷◌, Option, none, some,
  Text, codes, text_eq, ltb, ltb→lt, ◌==◌, if◌then◌else◌,
}

abbrev pub Enum : Type 0
Enum = List (Text × ℕ)

abbrev pub entry : String → ℕ → Text × ℕ
entry name value = (codes name, value)

abbrev pub value_of : Enum → Text → Option ℕ
value_of [] n = none
value_of ((m, w) ∷ e) n = if text_eq n m then some w else value_of e n

abbrev pub name_of : Enum → ℕ → Option Text
name_of [] v = none
name_of ((m, w) ∷ e) v = if v == w then some m else name_of e v

-- A value that no name has.
abbrev lacks : Enum → ℕ → Bool
lacks [] v = true
lacks ((m, w) ∷ e) v = not (w == v) && lacks e v

abbrev pub distinct : Enum → Bool
distinct [] = true
distinct ((m, w) ∷ e) = lacks e w && distinct e

-- The values fit so many bytes.
abbrev pub fits : ℕ → Enum → Bool
fits size [] = true
fits size ((m, w) ∷ e) = ltb w (256 ^ size) && fits size e

text_eq_lem : (s t : Text) → text_eq s t ≡ true → s ≡ t
text_eq_lem [] [] h = refl
text_eq_lem [] (y ∷ ys) h = cc
text_eq_lem (x ∷ xs) [] h = cc
text_eq_lem (x ∷ xs) (y ∷ ys) h = let ih = text_eq_lem xs ys in ground arith

lacks-value_of :
    (e : Enum) (n : Text) (v w : ℕ) → lacks e w ≡ true → value_of e n ≡ some v → (v == w) ≡ false
lacks-value_of [] n v w l h = cc
lacks-value_of ((m, u) ∷ e) n v w l h = let ih = lacks-value_of e n v w in ground arith

pub name_of-value_of :
    (e : Enum) (n : Text) (v : ℕ) → distinct e ≡ true → value_of e n ≡ some v → name_of e v ≡ some n
name_of-value_of [] n v d h = cc
name_of-value_of ((m, w) ∷ e) n v d h =
    let ih = name_of-value_of e n v in
    let apart = lacks-value_of e n v w in let same = text_eq_lem n m in ground arith

pub fits-value_of :
    (size : ℕ) (e : Enum) (n : Text) (v : ℕ)
    → fits size e ≡ true
    → value_of e n ≡ some v
    → v < 256 ^ size
fits-value_of size [] n v f h = cc
fits-value_of size ((m, w) ∷ e) n v f h =
    let ih = fits-value_of size e n v in let small = ltb→lt w (256 ^ size) in ground arith
