-- ===== src/Protocol/Stream/Chunks.antt =====
-- How the stream is cut into reads does not matter, and encoded frames come out as they went in.
use exn_gs.Common.{
  ℕ, zero, suc, ◌+◌, ◌<◌, ◌^◌, ◌≡◌, refl, ap, ◌∙◌, inl, inr, arith, List, [], ◌∷◌, ◌++◌, false,
  length, All, append-nil, append_assoc, Bool-cases, sym, append_split,
}
use mathlib.Core.List.{flatten}
use exn_gs.Protocol.{Frame, more, got, try_decode, encode}
use exn_gs.Protocol.Frames.{
  IsSendable, try_decode_takes, try_decode-append, try_decode-encode, try_decode-prefix,
}
use exn_gs.Protocol.Stream.{Received, decode_all, receive, receive_all}
use exn_gs.Protocol.Stream.Laws.{Decoded-cases, decode_all-more, decode_all-got, decode_all-fault}

-- The frames of `r`, then what decoding goes on to.
abbrev pub then : Received → Received → Received
then r s = record { frames = r.frames ++ s.frames; rxbuf = s.rxbuf; broken = s.broken }

decode_all-append_fuel :
    (n : ℕ) (b later : List ℕ)
    → length b < n
    → (decode_all b).broken ≡ false
    → decode_all (b ++ later) ≡ then (decode_all b) (decode_all ((decode_all b).rxbuf ++ later))
decode_all-append_fuel zero b later h w = absurd (omega arith)
decode_all-append_fuel (suc n) b later h w = elim (Decoded-cases (try_decode b)) [
  | inl e ↦ rw (decode_all-more b e)
  | inr (inl (f, rest, e)) ↦ rw (
    decode_all-got b rest f e,
    decode_all-got (b ++ later) (rest ++ later) f (try_decode-append b rest later f e),
    decode_all-append_fuel n rest later (omega (arith, try_decode_takes b rest f e))
        (rw (decode_all-got b rest f e) at w),
  )
  | inr (inr e) ↦ cc (decode_all-fault b e)
]

decode_all-append :
    (b later : List ℕ)
    → (decode_all b).broken ≡ false
    → decode_all (b ++ later) ≡ then (decode_all b) (decode_all ((decode_all b).rxbuf ++ later))
decode_all-append b later = decode_all-append_fuel (suc (length b)) b later (omega arith)

decode_all_drained_fuel :
    (n : ℕ) (b : List ℕ)
    → length b < n
    → (decode_all b).broken ≡ false
    → try_decode (decode_all b).rxbuf ≡ more
decode_all_drained_fuel zero b h w = absurd (omega arith)
decode_all_drained_fuel (suc n) b h w = elim (Decoded-cases (try_decode b)) [
  | inl e ↦ rw (decode_all-more b e) e
  | inr (inl (f, rest, e)) ↦ rw (decode_all-got b rest f e) (
      decode_all_drained_fuel n rest (omega (arith, try_decode_takes b rest f e))
        (rw (decode_all-got b rest f e) at w))
  | inr (inr e) ↦ cc (decode_all-fault b e)
]

-- The loop ends because `try_decode` answers false, never because its fuel is used up: what is
-- left in the buffer is no complete frame, unless the loop broke.
pub decode_all_drained :
    (b : List ℕ) → (decode_all b).broken ≡ false → try_decode (decode_all b).rxbuf ≡ more
decode_all_drained b = decode_all_drained_fuel (suc (length b)) b (omega arith)

-- Whatever bytes arrive, cutting them into reads makes no difference: from a buffer without a
-- complete frame, a sequence of reads that does not break gives the frames, and leaves the buffer,
-- of one read of all the bytes.
pub receive_all-flatten :
    (rxbuf : List ℕ) (chunks : List (List ℕ))
    → try_decode rxbuf ≡ more
    → (receive_all rxbuf chunks).broken ≡ false
    → receive_all rxbuf chunks ≡ receive rxbuf (flatten chunks)
unfolding receive_all receive flatten
receive_all-flatten rxbuf [] m w = rw (append-nil rxbuf, decode_all-more rxbuf m)
receive_all-flatten rxbuf (chunk ∷ chunks) m w =
    let b = rxbuf ++ chunk in
    let whole : rxbuf ++ (chunk ++ flatten chunks) ≡ b ++ flatten chunks =
      sym (append_assoc rxbuf chunk (flatten chunks)) in
    elim (Bool-cases (decode_all b).broken) [
      | inl e ↦ let w' : (decode_all b).broken ≡ false = rw (e, receive_all) at w in cc
      | inr e ↦
          let w' : (receive_all (decode_all b).rxbuf chunks).broken ≡ false =
            rw (e, receive_all) at w in
          rw (whole, decode_all-append b (flatten chunks) e)
            (rw (e, receive_all)
              (rw (receive_all-flatten (decode_all b).rxbuf chunks (decode_all_drained b e) w')))
    ]

abbrev pub encode_all : List Frame → List ℕ
encode_all [] = []
encode_all (f ∷ fs) = encode f ++ encode_all fs

abbrev pub IsWellFormed : Frame → Type 0
IsWellFormed f = IsSendable f.type × (6 + length f.payload < 2 ^ 32)

-- What decoding a part of a sent stream has done, and what is left to do.
abbrev Progress : List ℕ → List ℕ → List Frame → Type 0
Progress b later fs =
    (done todo : List Frame) × (rest : List ℕ) × (fs ≡ done ++ todo)
    × All IsWellFormed todo
    × (decode_all b ≡ record { frames = done; rxbuf = rest; broken = false })
    × (rest ++ later ≡ encode_all todo)
    × (try_decode rest ≡ more)

pub try_decode-nil : try_decode [] ≡ more
unfolding try_decode
try_decode-nil = refl

decoded-Progress :
    (b later : List ℕ) (fs : List Frame)
    → All IsWellFormed fs
    → b ++ later ≡ encode_all fs
    → Progress b later fs
decoded-Progress [] later [] w e =
    ([], [], [], refl, tt, decode_all-more [] try_decode-nil, e, try_decode-nil)
decoded-Progress (x ∷ b) later [] w e = cc
decoded-Progress b later (f ∷ fs) w e =
    elim (append_split (encode f) (encode_all fs) b later (sym e)) [
      | inl (back, p, q, h) ↦
          let m = try_decode-prefix f b back w.0.1 p h in
          ([], f ∷ fs, b, refl, w, decode_all-more b m, e, m)
      | inr (b', p, q) ↦
          let (done, todo, rest, split, w', d, left, m) =
            decoded-Progress b' later fs w.1 (sym q) in
          let first : try_decode b ≡ got f b' = rw p (try_decode-encode f b' w.0.0 w.0.1) in
          (f ∷ done, todo, rest, ap (◌∷◌ f) split, w', decode_all-got b b' f first ∙ rw d, left, m)
    ]

receive_all_step :
    (rxbuf chunk : List ℕ) (chunks : List (List ℕ)) (r : Received)
    → decode_all (rxbuf ++ chunk) ≡ r
    → r.broken ≡ false
    → receive_all rxbuf (chunk ∷ chunks) ≡ then r (receive_all r.rxbuf chunks)
unfolding receive_all receive
receive_all_step rxbuf chunk chunks r d e =
    let b : (decode_all (rxbuf ++ chunk)).broken ≡ false = rw d e in
    rw (b, receive_all) (rw (d, receive))

receive_all_sent :
    (rxbuf : List ℕ) (fs : List Frame) (chunks : List (List ℕ))
    → try_decode rxbuf ≡ more
    → All IsWellFormed fs
    → rxbuf ++ flatten chunks ≡ encode_all fs
    → receive_all rxbuf chunks ≡ record { frames = fs; rxbuf = []; broken = false }
unfolding receive_all receive flatten
receive_all_sent rxbuf [] [] m w e =
    ap (λ (b : List ℕ). record { frames = []; rxbuf = b; broken = false })
      (sym (append-nil rxbuf) ∙ e)
receive_all_sent rxbuf (f ∷ fs) [] m w e =
    cc (ap try_decode (sym (append-nil rxbuf) ∙ e), try_decode-encode f (encode_all fs) w.0.0 w.0.1)
receive_all_sent rxbuf fs (chunk ∷ chunks) m w e =
    let (done, todo, rest, split, w', d, left, m') =
      decoded-Progress (rxbuf ++ chunk) (flatten chunks) fs w
        (append_assoc rxbuf chunk (flatten chunks) ∙ e) in
    receive_all_step rxbuf chunk chunks _ d refl
    ∙ rw (receive_all_sent rest todo chunks m' w' left, split)

-- Frames that were sent arrive: however the network cuts the encoded frames into reads, the reader
-- gets these frames in their order, nothing is left in its buffer, and the loop does not break.
-- The types are ones that the 16-bit field holds, and each payload is below 2 ^ 32 - 6 bytes.
pub receive_all-encode_all :
    (fs : List Frame) (chunks : List (List ℕ))
    → All IsWellFormed fs
    → flatten chunks ≡ encode_all fs
    → receive_all [] chunks ≡ record { frames = fs; rxbuf = []; broken = false }
receive_all-encode_all fs chunks w e = receive_all_sent [] fs chunks try_decode-nil w e
