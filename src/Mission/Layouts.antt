-- ===== src/Mission/Layouts.antt =====
-- shared/include/exn/shared/exn_interfaces.h: packed structures, which are byte arrays in big-endian
-- order, one behind the other.
use native.Mathlib.Nat.{pow-suc}
use exn_gs.Common.{
  ℕ, zero, suc, ◌+◌, ◌*◌, ◌/◌, ◌%◌, ◌^◌, ◌<◌, ◌≡◌, refl, arith, List, [], ◌∷◌, ◌++◌, Text, length,
  length-append, take, drop, take-append_all, drop-append_all, append_assoc,
}

pub record Field : Type 0 where
  pub name : Text
  pub size : ℕ

abbrev pub field : Text → ℕ → Field
field name size = record { name = name; size = size }

abbrev pub Layout : Type 0
Layout = List Field

-- `sizeof`
abbrev pub size_of : Layout → ℕ
size_of [] = 0
size_of (f ∷ fs) = f.size + size_of fs

-- A number in so many bytes, the most significant first.
unfoldable pub put_be : ℕ → ℕ → List ℕ
put_be zero v = []
put_be (suc size) v = put_be size (v / 256) ++ v % 256 ∷ []

unfoldable pub from_be : ℕ → List ℕ → ℕ
from_be acc [] = acc
from_be acc (b ∷ bytes) = from_be (acc * 256 + b) bytes

unfoldable pub get_be : ℕ → List ℕ → ℕ
unfolding from_be
get_be size bytes = from_be 0 (take size bytes)

-- A structure with the values of its fields.
abbrev pub put_all : Layout → List ℕ → List ℕ
put_all [] vs = []
put_all (f ∷ fs) [] = []
put_all (f ∷ fs) (v ∷ vs) = put_be f.size v ++ put_all fs vs

abbrev pub get_all : Layout → List ℕ → List ℕ
get_all [] bytes = []
get_all (f ∷ fs) bytes = get_be f.size bytes ∷ get_all fs (drop f.size bytes)

-- Each field has a value that fits it.
abbrev pub IsFilled : Layout → List ℕ → Type 0
IsFilled [] [] = Unit
IsFilled [] (v ∷ vs) = ⊥
IsFilled (f ∷ fs) [] = ⊥
IsFilled (f ∷ fs) (v ∷ vs) = (v < 256 ^ f.size) × IsFilled fs vs

pub length-put_be : (size v : ℕ) → length (put_be size v) ≡ size
unfolding put_be
length-put_be zero v = refl
length-put_be (suc size) v =
    omega
      (arith, length-append (put_be size (v / 256)) (v % 256 ∷ []), length-put_be size (v / 256))

from_be-snoc :
    (acc b : ℕ) (bytes : List ℕ) → from_be acc (bytes ++ b ∷ []) ≡ from_be acc bytes * 256 + b
unfolding from_be
from_be-snoc acc b [] = refl
from_be-snoc acc b (c ∷ bytes) = from_be-snoc (acc * 256 + c) b bytes

from_be-put_be : (size v : ℕ) → v < 256 ^ size → from_be 0 (put_be size v) ≡ v
unfolding put_be from_be
from_be-put_be zero v h = omega arith
from_be-put_be (suc size) v h =
    let ih = from_be-put_be size (v / 256) (omega (arith, pow-suc 256 size)) in
    omega (arith, from_be-snoc 0 (v % 256) (put_be size (v / 256)), ih)

pub get_be-put_be :
    (size v : ℕ) (rest : List ℕ) → v < 256 ^ size → get_be size (put_be size v ++ rest) ≡ v
unfolding get_be
get_be-put_be size v rest h =
    rw (take-append_all size (put_be size v) rest (omega (arith, length-put_be size v)))
      (from_be-put_be size v h)

-- The values of a structure come back from its bytes, whatever stands behind it.
pub get_all-put_all :
    (fs : Layout) (vs rest : List ℕ) → IsFilled fs vs → get_all fs (put_all fs vs ++ rest) ≡ vs
get_all-put_all [] [] rest h = refl
get_all-put_all [] (v ∷ vs) rest h = absurd h
get_all-put_all (f ∷ fs) [] rest h = absurd h
get_all-put_all (f ∷ fs) (v ∷ vs) rest (fits, h) =
    let bytes = put_be f.size v in
    let behind = put_all fs vs ++ rest in
    rw
      (
        append_assoc bytes (put_all fs vs) rest,
        get_be-put_be f.size v behind fits,
        drop-append_all f.size bytes behind (omega (arith, length-put_be f.size v)),
        get_all-put_all fs vs rest h,
      )
      refl

pub length-put_all :
    (fs : Layout) (vs : List ℕ) → IsFilled fs vs → length (put_all fs vs) ≡ size_of fs
length-put_all [] [] h = refl
length-put_all [] (v ∷ vs) h = absurd h
length-put_all (f ∷ fs) [] h = absurd h
length-put_all (f ∷ fs) (v ∷ vs) (fits, h) = omega (
  arith,
  length-append (put_be f.size v) (put_all fs vs),
  length-put_be f.size v,
  length-put_all fs vs h,
)
