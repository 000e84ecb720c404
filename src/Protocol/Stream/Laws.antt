-- ===== src/Protocol/Stream/Laws.antt =====
-- The receive loop by what `try_decode` answers, with the fuel out of sight.
use exn_gs.Common.{
  ℕ, zero, suc, ◌<◌, ◌≡◌, refl, ◌⊎◌, inl, inr, arith, List, [], ◌∷◌, true, false, length,
}
use exn_gs.Protocol.{Frame, Decoded, more, got, fault, try_decode}
use exn_gs.Protocol.Frames.{try_decode_takes}
use exn_gs.Protocol.Stream.{decode_loop, decode_all}

pub Decoded-cases :
    (d : Decoded) → (d ≡ more) ⊎ ((f : Frame) × (rest : List ℕ) × (d ≡ got f rest)) ⊎ (d ≡ fault)
Decoded-cases more = inl refl
Decoded-cases (got f rest) = inr (inl (f, rest, refl))
Decoded-cases fault = inr (inr refl)

decode_loop_fuel :
    (n m : ℕ) (b : List ℕ) → length b < n → length b < m → decode_loop n b ≡ decode_loop m b
unfolding decode_loop
decode_loop_fuel zero m b h k = absurd (omega arith)
decode_loop_fuel (suc n) zero b h k = absurd (omega arith)
decode_loop_fuel (suc n) (suc m) b h k = elim (Decoded-cases (try_decode b)) [
  | inl e ↦ rw (e, decode_loop)
  | inr (inl (f, rest, e)) ↦
      rw (e, decode_loop)
        (rw (
          decode_loop_fuel n m rest (omega (arith, try_decode_takes b rest f e))
            (omega (arith, try_decode_takes b rest f e))))
  | inr (inr e) ↦ rw (e, decode_loop)
]

pub decode_all-more :
    (b : List ℕ)
    → try_decode b ≡ more
    → decode_all b ≡ record { frames = []; rxbuf = b; broken = false }
unfolding decode_all decode_loop
decode_all-more b e = rw (e, decode_loop)

pub decode_all-got :
    (b rest : List ℕ) (f : Frame)
    → try_decode b ≡ got f rest
    → decode_all b ≡ record {
      frames = f ∷ (decode_all rest).frames;
      rxbuf = (decode_all rest).rxbuf;
      broken = (decode_all rest).broken;
    }
unfolding decode_all decode_loop
decode_all-got b rest f e =
    let small = try_decode_takes b rest f e in
    rw (e, decode_loop)
      (rw (decode_loop_fuel (length b) (suc (length rest)) rest (omega arith) (omega arith)))

pub decode_all-fault :
    (b : List ℕ)
    → try_decode b ≡ fault
    → decode_all b ≡ record { frames = []; rxbuf = b; broken = true }
unfolding decode_all decode_loop
decode_all-fault b e = rw (e, decode_loop)
