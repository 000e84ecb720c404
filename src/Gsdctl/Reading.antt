-- ===== src/Gsdctl/Reading.antt =====
-- tools/gsdctl/main.cpp: `read_frame` and the two loops over it, on frames that were sent.
use mathlib.Core.List.{flatten}
use exn_gs.Common.{
  ℕ, ◌⊎◌, length-append, zero, suc, ◌<◌, ◌≡◌, ◌≢◌, refl, inl, inr, arith, sym, ◌∙◌, ap, List, [],
  ◌∷◌, ◌++◌, Option, none, some, All, length, append_split, append_assoc,
}
use exn_gs.Protocol.{Frame, more, got, encode, try_decode}
use exn_gs.Protocol.Frames.{try_decode-encode, try_decode-prefix}
use exn_gs.Protocol.Stream.Chunks.{try_decode-nil, encode_all, IsWellFormed}
use exn_gs.Gsdctl.{
  Arrival, arrives, throws, frame, blocked, read_frame, Output, print_frame, Verdict, read_on,
  breaks, stops, Ended, done, blocks, breaks_off, read_until,
}

abbrev pub IsChunked : List (List ℕ) → Type 0
IsChunked = All (λ chunk. chunk ≢ [])

abbrev pub received : List (List ℕ) → List Arrival
received [] = []
received (chunk ∷ chunks) = arrives chunk ∷ received chunks

-- The frame is there: no read is needed.
read_frame-got :
    (buffer rest : List ℕ) (f : Frame) (arrivals : List Arrival)
    → try_decode buffer ≡ got f rest
    → read_frame buffer arrivals ≡ frame f rest arrivals
unfolding read_frame
read_frame-got buffer rest f [] e = rw (e, read_frame) refl
read_frame-got buffer rest f (throws m ∷ arrivals) e = rw (e, read_frame) refl
read_frame-got buffer rest f (arrives [] ∷ arrivals) e = rw (e, read_frame) refl
read_frame-got buffer rest f (arrives (b ∷ bytes) ∷ arrivals) e = rw (e, read_frame) refl

read_frame-more :
    (buffer chunk : List ℕ) (arrivals : List Arrival)
    → try_decode buffer ≡ more
    → chunk ≢ []
    → read_frame buffer (arrives chunk ∷ arrivals) ≡ read_frame (buffer ++ chunk) arrivals
unfolding read_frame
read_frame-more buffer [] arrivals e n = absurd (n refl)
read_frame-more buffer (b ∷ bytes) arrivals e n = rw (e, read_frame) refl

-- A frame that was sent is read, and what is behind it stays.
abbrev Reads : List ℕ → List (List ℕ) → Frame → List Frame → Type 0
Reads buffer chunks f fs =
    (rest : List ℕ) × (chunks' : List (List ℕ)) × (read_frame buffer (received chunks)
      ≡ frame f rest (received chunks'))
    × IsChunked chunks'
    × (rest ++ flatten chunks' ≡ encode_all fs)

there :
    (buffer rest : List ℕ) (chunks : List (List ℕ)) (f : Frame) (fs : List Frame)
    → IsWellFormed f
    → IsChunked chunks
    → buffer ≡ encode f ++ rest
    → encode_all fs ≡ rest ++ flatten chunks
    → Reads buffer chunks f fs
there buffer rest chunks f fs w c p q = (
  rest,
  chunks,
  read_frame-got buffer rest f (received chunks) (rw p (try_decode-encode f rest w.0 w.1)),
  c,
  sym q,
)

read_frame-encode :
    (buffer : List ℕ) (chunks : List (List ℕ)) (f : Frame) (fs : List Frame)
    → IsWellFormed f
    → IsChunked chunks
    → buffer ++ flatten chunks ≡ encode f ++ encode_all fs
    → Reads buffer chunks f fs
unfolding flatten
read_frame-encode buffer [] f fs w c e =
    elim (append_split (encode f) (encode_all fs) buffer [] (sym e)) [
      | inr (rest, p, q) ↦ there buffer rest [] f fs w c p q
      | inl (back, p, q, h) ↦
          absurd (omega (arith, ap length q, length-append back (encode_all fs)))
    ]
read_frame-encode buffer (chunk ∷ chunks) f fs w c e =
    elim (append_split (encode f) (encode_all fs) buffer (chunk ++ flatten chunks) (sym e)) [
      | inr (rest, p, q) ↦ there buffer rest (chunk ∷ chunks) f fs w c p q
      | inl (back, p, q, h) ↦
          let (rest, later, r, c', left) =
            read_frame-encode (buffer ++ chunk) chunks f fs w c.1
              (append_assoc buffer chunk (flatten chunks) ∙ e) in
          let wait =
            read_frame-more buffer chunk (received chunks) (try_decode-prefix f buffer back w.1 p h)
              c.0 in
          (rest, later, wait ∙ r, c', left)
    ]

read_frame-blocked :
    (buffer : List ℕ) (chunks : List (List ℕ))
    → IsChunked chunks
    → buffer ++ flatten chunks ≡ []
    → read_frame buffer (received chunks) ≡ blocked
unfolding flatten read_frame
read_frame-blocked [] [] c e = rw (try_decode-nil, read_frame) refl
read_frame-blocked (b ∷ buffer) chunks c e = absurd (omega (arith, ap length e))
read_frame-blocked [] ([] ∷ chunks) c e = absurd (c.0 refl)
read_frame-blocked [] ((b ∷ chunk) ∷ chunks) c e = absurd (omega (arith, ap length e))

-- What a loop makes of the frames themselves: what it prints, and how it ends.
pub data Result : Type 0 where
  finished : ℕ → List Frame → Result
  waiting broken : Result

pub record Told : Type 0 where
  pub printed : List Output
  pub result : Result

abbrev pub tell : (Frame → Verdict) → List Frame → Told
tell verdict [] = record { printed = []; result = waiting }
tell verdict (f ∷ fs) = elim (print_frame f) [
  | none ↦ record { printed = []; result = broken }
  | some outputs ↦ elim (verdict f) [
    | stops code ↦ record { printed = outputs; result = finished code fs }
    | breaks ↦ record { printed = outputs; result = broken }
    | read_on ↦ let t = tell verdict fs in record t { printed = outputs ++ t.printed }
  ]
]

-- A loop has ended as told, and the frames behind are still to come.
abbrev pub Agrees : Ended → Result → Type 0
Agrees e (finished code fs) =
    (rest : List ℕ) × (chunks : List (List ℕ)) × (e ≡ done code rest (received chunks))
    × IsChunked chunks
    × (rest ++ flatten chunks ≡ encode_all fs)
Agrees e waiting = e ≡ blocks
Agrees e broken = e ≡ breaks_off

pub option_cases : (o : Option (List Output)) → (o ≡ none) ⊎ ((x : List Output) × (o ≡ some x))
option_cases none = inl refl
option_cases (some x) = inr (x, refl)

pub verdict_cases : (v : Verdict) → (v ≡ read_on) ⊎ (v ≡ breaks) ⊎ ((n : ℕ) × (v ≡ stops n))
verdict_cases read_on = inl refl
verdict_cases breaks = inr (inl refl)
verdict_cases (stops n) = inr (inr (n, refl))

-- A loop reads the frames that were sent, however they are cut into reads, with as many rounds as
-- there are frames, and one more.
pub read_until-tell :
    (verdict : Frame → Verdict) (fuel : ℕ) (buffer : List ℕ) (chunks : List (List ℕ))
    (fs : List Frame)
    → length fs < fuel
    → All IsWellFormed fs
    → IsChunked chunks
    → buffer ++ flatten chunks ≡ encode_all fs
    → let w = read_until verdict fuel buffer (received chunks) in
      (w.printed ≡ (tell verdict fs).printed) × Agrees w.ended (tell verdict fs).result
unfolding read_until
read_until-tell verdict zero buffer chunks fs h ws c e = absurd (omega arith)
read_until-tell verdict (suc fuel) buffer chunks [] h ws c e =
    rw (read_frame-blocked buffer chunks c e, read_until) (refl, refl)
read_until-tell verdict (suc fuel) buffer chunks (f ∷ fs) h ws c e =
    let (rest, later, r, c', left) = read_frame-encode buffer chunks f fs ws.0 c e in
    elim (option_cases (print_frame f)) [
      | inl p ↦ rw (r, p, read_until, tell) (refl, refl)
      | inr (outputs, p) ↦ elim (verdict_cases (verdict f)) [
        | inl v ↦
            let ih = read_until-tell verdict fuel rest later fs (omega arith) ws.1 c' left in
            rw (r, p, v, read_until, tell) (ap (λ (x : List Output). outputs ++ x) ih.0, ih.1)
        | inr (inl v) ↦ rw (r, p, v, read_until, tell) (refl, refl)
        | inr (inr (n, v)) ↦ rw (r, p, v, read_until, tell) (refl, (rest, later, refl, c', left))
      ]
    ]
