-- ===== src/Framer/Chunks.antt =====
-- How the byte stream is cut into pushes does not matter.
use exn_gs.Common.{
  ℕ, zero, suc, ◌≤◌, ◌<◌, ◌≡◌, refl, inl, inr, arith, Bool, true, false, List, [], ◌∷◌, ◌++◌,
  Option, length, length-append, take-append_le, drop-append_le, append-nil, append_assoc,
  if◌then◌else◌, sym,
}
use mathlib.Core.List.{flatten}
use exn_gs.Framer.{Framer, skip, take_packet, round, skip_byte, run_rounds, push_bytes, push_all}
use exn_gs.Framer.Laws.{
  Round-cases, round_take, round_skip, skip_smaller, take_smaller, run_rounds-stop, run_rounds-skip,
  run_rounds-take, without,
}

-- What the library documents of `declaredPacketSize`: it reads the six bytes of the primary header.
abbrev pub ReadsHeader : (List ℕ → Option ℕ) → Type 0
ReadsHeader d = (xs ys : List ℕ) → 6 ≤ length xs → d (xs ++ ys) ≡ d xs

abbrev pub more_bytes : Framer → List ℕ → Framer
more_bytes f later = record f { acc = f.acc ++ later }

if-append {ℓ} :
    {A : Type ℓ} (b : Bool) (x : A) (xs ys : List A)
    → (if b then x ∷ xs ++ ys else xs ++ ys) ≡ (if b then x ∷ xs else xs) ++ ys
if-append true x xs ys = refl
if-append false x xs ys = refl

module _ (declared_size : List ℕ → Option ℕ) (header : ReadsHeader declared_size) where
  -- The packets of a first run, then those of a second.
  abbrev pub and_then :
      Framer × List (List ℕ) → (Framer → Framer × List (List ℕ)) → Framer × List (List ℕ)
  and_then (f, packets) go = ((go f).0, packets ++ (go f).1)

  round_skip-append :
      (acc later : List ℕ)
      → round declared_size acc ≡ skip
      → round declared_size (acc ++ later) ≡ skip
  unfolding round
  round_skip-append acc later e = ground (arith, length-append acc later, header acc later)

  round_take-append :
      (acc later : List ℕ) (total : ℕ)
      → round declared_size acc ≡ take_packet total
      → round declared_size (acc ++ later) ≡ take_packet total
  unfolding round
  round_take-append acc later total e = ground (arith, length-append acc later, header acc later)

  run_rounds-append_fuel :
      (n : ℕ) (f : Framer) (later : List ℕ)
      → length f.acc < n
      → run_rounds declared_size (more_bytes f later)
        ≡ and_then (run_rounds declared_size f) (λ g. run_rounds declared_size (more_bytes g later))
  run_rounds-append_fuel zero f later h = absurd (omega arith)
  run_rounds-append_fuel (suc n) f later h = elim (Round-cases (round declared_size f.acc)) [
    | inl e ↦ rw (run_rounds-stop declared_size f e)
    | inr (inl e) ↦
        let small = round_skip declared_size f.acc e in
        rw
          (
            run_rounds-skip declared_size f e,
            run_rounds-skip declared_size (more_bytes f later) (round_skip-append f.acc later e),
            drop-append_le 1 f.acc later (omega arith),
          )
          (run_rounds-append_fuel n (skip_byte f) later
            (omega (arith, skip_smaller declared_size f e)))
    | inr (inr (total, e)) ↦
        let small = round_take declared_size f.acc total e in
        rw
          (
            run_rounds-take declared_size f total e,
            run_rounds-take declared_size (more_bytes f later) total
                (round_take-append f.acc later total e),
            take-append_le total f.acc later small.2,
            drop-append_le total f.acc later small.2,
            run_rounds-append_fuel n (without declared_size total f) later
                (omega (arith, take_smaller declared_size f total e)),
          )
          (rw if-append)
  ]

  run_rounds-append :
      (f : Framer) (later : List ℕ)
      → run_rounds declared_size (more_bytes f later)
        ≡ and_then (run_rounds declared_size f) (λ g. run_rounds declared_size (more_bytes g later))
  run_rounds-append f later = run_rounds-append_fuel (suc (length f.acc)) f later (omega arith)

  -- Pushing two pieces, one after the other, is pushing them together.
  pub push_bytes-append :
      (f : Framer) (xs ys : List ℕ)
      → push_bytes declared_size f (xs ++ ys)
        ≡ and_then (push_bytes declared_size f xs) (λ g. push_bytes declared_size g ys)
  unfolding push_bytes
  push_bytes-append f [] ys = refl
  push_bytes-append f (x ∷ xs) [] =
      rw (append-nil xs, append-nil (push_bytes declared_size f (x ∷ xs)).1)
  push_bytes-append f (x ∷ xs) (y ∷ ys) =
      rw (sym (append_assoc f.acc (x ∷ xs) (y ∷ ys)))
        (run_rounds-append (more_bytes f (x ∷ xs)) (y ∷ ys))

  -- However the stream is cut into pushes, the framer reports the packets, and ends in the state,
  -- of one push of all the bytes. (The library reads the declared size from the six bytes of the
  -- primary header.)
  pub push_all-flatten :
      (f : Framer) (chunks : List (List ℕ))
      → push_all declared_size f chunks ≡ push_bytes declared_size f (flatten chunks)
  unfolding push_all flatten
  push_all-flatten f [] = unfold push_bytes in refl
  push_all-flatten f (chunk ∷ chunks) = rw (
    push_bytes-append f chunk (flatten chunks),
    push_all-flatten (push_bytes declared_size f chunk).0 chunks,
  )
