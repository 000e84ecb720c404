-- ===== src/SerialLink/Tally.antt =====
-- The outstanding operations of the device link, counted by kind and generation.
use exn_gs.Common.{
  ℕ, ◌+◌, ◌≤◌, ◌≡◌, arith, Bool, false, List, [], ◌∷◌, ◌++◌, All, ◌==◌, if◌then◌else◌,
}
use exn_gs.SerialLink.{Pending, resolve, connect, read, write, posted}

abbrev pub is_write : ℕ → Pending → Bool
is_write g (write h bytes) = g == h
is_write g (read h) = false
is_write g (resolve h) = false
is_write g (connect h) = false
is_write g (posted bytes) = false

abbrev pub is_read : ℕ → Pending → Bool
is_read g (write h bytes) = false
is_read g (read h) = g == h
is_read g (resolve h) = false
is_read g (connect h) = false
is_read g (posted bytes) = false

abbrev pub is_handshake : ℕ → Pending → Bool
is_handshake g (write h bytes) = false
is_handshake g (read h) = false
is_handshake g (resolve h) = g == h
is_handshake g (connect h) = g == h
is_handshake g (posted bytes) = false

abbrev pub tally : (Pending → Bool) → List Pending → ℕ
tally f [] = 0
tally f (p ∷ ps) = (if f p then 1 else 0) + tally f ps

pub tally-append :
    (f : Pending → Bool) (xs ys : List Pending) → tally f (xs ++ ys) ≡ tally f xs + tally f ys
tally-append f [] ys = omega arith
tally-append f (x ∷ xs) ys = omega (arith, tally-append f xs ys)

pub tally-remove :
    (f : Pending → Bool) (xs ys : List Pending) (x : Pending)
    → tally f (xs ++ x ∷ ys) ≡ (if f x then 1 else 0) + tally f (xs ++ ys)
tally-remove f xs ys x = omega (arith, tally-append f xs (x ∷ ys), tally-append f xs ys)

-- The generation of an operation; a posted lambda has none.
abbrev pub generation_of : Pending → ℕ
generation_of (write h bytes) = h
generation_of (read h) = h
generation_of (resolve h) = h
generation_of (connect h) = h
generation_of (posted bytes) = 0

abbrev pub IsPast : ℕ → List Pending → Type 0
IsPast g = All (λ p. generation_of p ≤ g)

-- The outstanding write of the front of the queue, as a count.
abbrev pub front_writes : List (List ℕ) → ℕ
front_writes [] = 0
front_writes (bytes ∷ queue) = 1

-- The generation after a start or a stop is new: no operation of it is outstanding.
pub tally-fresh :
    (g : ℕ) (ps : List Pending)
    → IsPast g ps
    → (tally (is_write (g + 1)) ps ≡ 0)
      × (tally (is_read (g + 1)) ps ≡ 0)
      × (tally (is_handshake (g + 1)) ps ≡ 0)
tally-fresh g [] h = omega arith
tally-fresh g (write k bytes ∷ ps) h = ground (arith, tally-fresh g ps h.1)
tally-fresh g (read k ∷ ps) h = ground (arith, tally-fresh g ps h.1)
tally-fresh g (resolve k ∷ ps) h = ground (arith, tally-fresh g ps h.1)
tally-fresh g (connect k ∷ ps) h = ground (arith, tally-fresh g ps h.1)
tally-fresh g (posted bytes ∷ ps) h = ground (arith, tally-fresh g ps h.1)
