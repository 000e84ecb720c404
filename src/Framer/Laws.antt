-- ===== src/Framer/Laws.antt =====
-- The loop of `push_bytes` by what one round does, with the fuel out of sight.
use exn_gs.Common.{
  ℕ, zero, suc, ◌≤◌, ◌<◌, ◌≡◌, refl, ◌⊎◌, inl, inr, arith, List, [], ◌∷◌, Option, some, length,
  length-drop, take, drop, if◌then◌else◌, ap,
}
use exn_gs.Framer.{Framer, Round, stop, skip, take_packet, round, skip_byte, frame_loop, run_rounds}

pub Round-cases : (r : Round) → (r ≡ stop) ⊎ (r ≡ skip) ⊎ ((total : ℕ) × (r ≡ take_packet total))
Round-cases stop = inl refl
Round-cases skip = inr (inl refl)
Round-cases (take_packet total) = inr (inr (total, refl))

module _ (declared_size : List ℕ → Option ℕ) where
  -- A packet is within the buffer and at least a primary header and one byte long.
  pub round_take :
      (acc : List ℕ) (total : ℕ)
      → round declared_size acc ≡ take_packet total
      → (declared_size acc ≡ some total) × (7 ≤ total) × (total ≤ length acc) × (total ≤ 65542)
  unfolding round
  round_take acc total e = ground arith

  pub round_skip : (acc : List ℕ) → round declared_size acc ≡ skip → 6 ≤ length acc
  unfolding round
  round_skip acc e = ground arith

  pub skip_smaller :
      (f : Framer) → round declared_size f.acc ≡ skip → length (drop 1 f.acc) < length f.acc
  skip_smaller f e = omega (arith, round_skip f.acc e, length-drop 1 f.acc)

  pub take_smaller :
      (f : Framer) (total : ℕ)
      → round declared_size f.acc ≡ take_packet total
      → length (drop total f.acc) < length f.acc
  take_smaller f total e = omega (arith, round_take f.acc total e, length-drop total f.acc)

  frame_loop_fuel :
      (n m : ℕ) (f : Framer)
      → length f.acc < n
      → length f.acc < m
      → frame_loop declared_size n f ≡ frame_loop declared_size m f
  unfolding frame_loop
  frame_loop_fuel zero m f h k = absurd (omega arith)
  frame_loop_fuel (suc n) zero f h k = absurd (omega arith)
  frame_loop_fuel (suc n) (suc m) f h k = elim (Round-cases (round declared_size f.acc)) [
    | inl e ↦ rw (e, frame_loop)
    | inr (inl e) ↦
        let small = skip_smaller f e in
        rw (e, frame_loop) (frame_loop_fuel n m (skip_byte f) (omega arith) (omega arith))
    | inr (inr (total, e)) ↦
        let small = take_smaller f total e in
        rw (e, frame_loop)
          (rw
            (frame_loop_fuel n m (record f { acc = drop total f.acc }) (omega arith) (omega arith)))
  ]

  pub run_rounds-stop :
      (f : Framer) → round declared_size f.acc ≡ stop → run_rounds declared_size f ≡ (f, [])
  unfolding run_rounds frame_loop
  run_rounds-stop f e = rw (e, frame_loop)

  pub run_rounds-skip :
      (f : Framer)
      → round declared_size f.acc ≡ skip
      → run_rounds declared_size f ≡ run_rounds declared_size (skip_byte f)
  unfolding run_rounds frame_loop
  run_rounds-skip f e =
      let small = skip_smaller f e in
      rw (e, frame_loop)
        (frame_loop_fuel (length f.acc) (suc (length (drop 1 f.acc))) (skip_byte f) (omega arith)
          (omega arith))

  abbrev pub without : ℕ → Framer → Framer
  without total f = record f { acc = drop total f.acc }

  abbrev pub report : Framer → List ℕ → Framer × List (List ℕ) → Framer × List (List ℕ)
  report f packet (f', packets) = (f', if f.on_packet then packet ∷ packets else packets)

  pub run_rounds-take :
      (f : Framer) (total : ℕ)
      → round declared_size f.acc ≡ take_packet total
      → run_rounds declared_size f
        ≡ report f (take total f.acc) (run_rounds declared_size (without total f))
  unfolding run_rounds frame_loop
  run_rounds-take f total e =
      let small = take_smaller f total e in
      rw (e, frame_loop)
        (ap (report f (take total f.acc)) (
          frame_loop_fuel (length f.acc) (suc (length (drop total f.acc))) (without total f)
            (omega arith) (omega arith)))
