-- ===== src/Framer/Packets.antt =====
-- What the framer reports: whole packets, all of them, and no byte without an account.
use mathlib.Core.Path.{subst}
use exn_gs.Common.{
  ℕ, zero, suc, ◌+◌, ◌%◌, ◌^◌, ◌≤◌, ◌<◌, ◌≡◌, refl, sym, ap, ◌∙◌, inl, inr, arith, Bool, true,
  false, List, [], ◌∷◌, ◌++◌, Option, some, length, length-append, length-take, length-drop, take,
  drop, take-append-drop, take-append_all, drop-append_all, All, append-nil, append_assoc,
  if◌then◌else◌,
}
use mathlib.Core.List.{flatten}
use exn_gs.Framer.{
  Framer, stop, take_packet, new_framer, round, skip_byte, run_rounds, push_bytes, push_all,
}
use exn_gs.Framer.Laws.{
  Round-cases, round_take, round_skip, skip_smaller, take_smaller, run_rounds-stop, run_rounds-skip,
  run_rounds-take, without,
}
use exn_gs.Framer.Chunks.{ReadsHeader, more_bytes, push_all-flatten}

-- The number of bytes in a list of packets.
abbrev pub total_length : List (List ℕ) → ℕ
total_length [] = 0
total_length (p ∷ ps) = length p + total_length ps

abbrev pub listening : List ℕ → ℕ → Framer
listening acc errors = record { acc = acc; on_packet = true; framing_errors = errors }

All-if {ℓ κ} :
    {A : Type ℓ} (P : A → Type κ) (b : Bool) (x : A) (xs : List A)
    → P x
    → All P xs
    → All P (if b then x ∷ xs else xs)
All-if P true x xs p ps = (p, ps)
All-if P false x xs p ps = ps

module _ (declared_size : List ℕ → Option ℕ) where
  -- A packet as its own primary header declares it, within the sizes of a Space Packet.
  abbrev pub IsPacket : List ℕ → Type 0
  IsPacket p = (declared_size p ≡ some (length p)) × (7 ≤ length p) × (length p ≤ 65542)

  drained_fuel :
      (n : ℕ) (f : Framer)
      → length f.acc < n
      → round declared_size (run_rounds declared_size f).0.acc ≡ stop
  drained_fuel zero f h = absurd (omega arith)
  drained_fuel (suc n) f h = elim (Round-cases (round declared_size f.acc)) [
    | inl e ↦ rw (run_rounds-stop declared_size f e) e
    | inr (inl e) ↦
        rw (run_rounds-skip declared_size f e)
          (drained_fuel n (skip_byte f) (omega (arith, skip_smaller declared_size f e)))
    | inr (inr (total, e)) ↦ rw (run_rounds-take declared_size f total e) (
        drained_fuel n (without declared_size total f)
          (omega (arith, take_smaller declared_size f total e)))
  ]

  -- A push of at least one byte ends because what is left is less than a primary header or than the
  -- packet that it declares, and never because the fuel of the model is used up.
  pub push_bytes_drained :
      (f : Framer) (b : ℕ) (bytes : List ℕ)
      → round declared_size (push_bytes declared_size f (b ∷ bytes)).0.acc ≡ stop
  unfolding push_bytes
  push_bytes_drained f b bytes =
      drained_fuel (suc (length (f.acc ++ b ∷ bytes))) (more_bytes f (b ∷ bytes)) (omega arith)

  pub push_bytes-run :
      (f : Framer) (bytes : List ℕ)
      → round declared_size f.acc ≡ stop
      → push_bytes declared_size f bytes ≡ run_rounds declared_size (more_bytes f bytes)
  unfolding push_bytes
  push_bytes-run f [] e = rw append-nil (sym (run_rounds-stop declared_size f e))
  push_bytes-run f (b ∷ bytes) e = refl

  -- Bytes in, packets and dropped bytes out: `dropped` framing errors were counted.
  abbrev pub Accounts : Framer → ℕ → Framer × List (List ℕ) → Type 0
  Accounts f size r =
      (dropped : ℕ) × (r.0.framing_errors ≡ (f.framing_errors + dropped) % 2 ^ 64)
      × (size ≡ total_length r.1 + dropped + length r.0.acc)

  run_rounds-Accounts :
      (n : ℕ) (acc : List ℕ) (errors : ℕ)
      → length acc < n
      → errors < 2 ^ 64
      → Accounts
          (listening acc errors)
          (length acc)
          (run_rounds declared_size (listening acc errors))
  run_rounds-Accounts zero acc errors h small = absurd (omega arith)
  run_rounds-Accounts (suc n) acc errors h small =
      let f = listening acc errors in
      elim (Round-cases (round declared_size acc)) [
        | inl e ↦ rw (run_rounds-stop declared_size f e) (0, omega arith, omega arith)
        | inr (inl e) ↦
            let (dropped, count, size) =
              run_rounds-Accounts n (drop 1 acc) ((errors + 1) % 2 ^ 64)
                (omega (arith, skip_smaller declared_size f e)) (omega arith) in
            rw (run_rounds-skip declared_size f e) (
              dropped + 1,
              omega arith,
              omega (arith, round_skip declared_size acc e, length-drop 1 acc),
            )
        | inr (inr (total, e)) ↦
            let (dropped, count, size) =
              run_rounds-Accounts n (drop total acc) errors
                (omega (arith, take_smaller declared_size f total e)) small in
            let fits = round_take declared_size acc total e in
            rw (run_rounds-take declared_size f total e)
              (dropped, count, omega (arith, length-take total acc, length-drop total acc))
      ]

  push_bytes-listening :
      (acc bytes : List ℕ) (errors : ℕ)
      → errors < 2 ^ 64
      → Accounts
          (listening acc errors)
          (length acc + length bytes)
          (push_bytes declared_size (listening acc errors) bytes)
  unfolding push_bytes
  push_bytes-listening acc [] errors small = (0, omega arith, omega arith)
  push_bytes-listening acc (b ∷ bytes) errors small =
      let (dropped, count, size) =
        run_rounds-Accounts (suc (length (acc ++ b ∷ bytes))) (acc ++ b ∷ bytes) errors
          (omega arith) small in
      (dropped, count, omega (arith, length-append acc (b ∷ bytes)))

  -- No byte is lost without a trace: the bytes that were buffered or arrive are those of the
  -- reported packets, those still buffered, and one for each framing error that the counter went up
  -- by, modulo 2 ^ 64. The callback is set, and the counter is a uint64.
  pub push_bytes-Accounts :
      (f : Framer) (bytes : List ℕ)
      → f.on_packet ≡ true
      → f.framing_errors < 2 ^ 64
      → Accounts f (length f.acc + length bytes) (push_bytes declared_size f bytes)
  push_bytes-Accounts f bytes on small =
      let e : listening f.acc f.framing_errors ≡ f = ground (arith, on) in
      subst (λ g. Accounts g (length g.acc + length bytes) (push_bytes declared_size g bytes)) e
        (push_bytes-listening f.acc bytes f.framing_errors small)

  module _ (header : ReadsHeader declared_size) where
    taken-IsPacket :
        (acc : List ℕ) (total : ℕ)
        → round declared_size acc ≡ take_packet total
        → IsPacket (take total acc)
    taken-IsPacket acc total e =
        let small = round_take declared_size acc total e in
        let size : length (take total acc) ≡ total = omega (arith, length-take total acc) in
        let same : declared_size acc ≡ declared_size (take total acc) =
          ap declared_size (sym (take-append-drop total acc))
          ∙ header (take total acc) (drop total acc) (omega arith) in
        (sym same ∙ small.0 ∙ ap some (sym size), omega arith, omega arith)

    run_rounds-IsPacket :
        (n : ℕ) (f : Framer) → length f.acc < n → All IsPacket (run_rounds declared_size f).1
    run_rounds-IsPacket zero f h = absurd (omega arith)
    run_rounds-IsPacket (suc n) f h = elim (Round-cases (round declared_size f.acc)) [
      | inl e ↦ rw (run_rounds-stop declared_size f e) tt
      | inr (inl e) ↦
          rw (run_rounds-skip declared_size f e)
            (run_rounds-IsPacket n (skip_byte f) (omega (arith, skip_smaller declared_size f e)))
      | inr (inr (total, e)) ↦ rw (run_rounds-take declared_size f total e) (
          All-if IsPacket f.on_packet _ _ (taken-IsPacket f.acc total e) (
            run_rounds-IsPacket n (without declared_size total f)
              (omega (arith, take_smaller declared_size f total e))))
    ]

    -- Every reported packet has the size that its own primary header declares, between 7 and 65542
    -- bytes. (The library reads the declared size from the six bytes of the primary header.)
    pub push_bytes-IsPacket :
        (f : Framer) (bytes : List ℕ) → All IsPacket (push_bytes declared_size f bytes).1
    unfolding push_bytes
    push_bytes-IsPacket f [] = tt
    push_bytes-IsPacket f (b ∷ bytes) =
        run_rounds-IsPacket (suc (length (f.acc ++ b ∷ bytes))) (more_bytes f (b ∷ bytes))
          (omega arith)

    round-packet :
        (p rest : List ℕ) → IsPacket p → round declared_size (p ++ rest) ≡ take_packet (length p)
    unfolding round
    round-packet p rest (size, lo, hi) = ground (arith, length-append p rest, header p rest, size)

    run_rounds-flatten :
        (packets : List (List ℕ)) (rest : List ℕ) (errors : ℕ)
        → All IsPacket packets
        → round declared_size rest ≡ stop
        → run_rounds declared_size (listening (flatten packets ++ rest) errors)
          ≡ (listening rest errors, packets)
    unfolding flatten
    run_rounds-flatten [] rest errors w s = run_rounds-stop declared_size (listening rest errors) s
    run_rounds-flatten (p ∷ packets) rest errors w s =
        let later = flatten packets ++ rest in
        let whole : (p ++ flatten packets) ++ rest ≡ p ++ later =
          append_assoc p (flatten packets) rest in
        rw (
          whole,
          run_rounds-take declared_size (listening (p ++ later) errors) (length p)
              (round-packet p later w.0),
          take-append_all (length p) p later refl,
          drop-append_all (length p) p later refl,
          run_rounds-flatten packets rest errors w.1 s,
        )

    -- Packets that are sent back to back are reported one by one, byte for byte and in order, also
    -- behind a prefix of the next packet, and however the stream is cut into pushes. (The library
    -- reads the declared size from the six bytes of the primary header.)
    pub push_all-packets :
        (packets chunks : List (List ℕ)) (rest : List ℕ)
        → All IsPacket packets
        → round declared_size rest ≡ stop
        → flatten chunks ≡ flatten packets ++ rest
        → push_all declared_size new_framer chunks ≡ (record new_framer { acc = rest }, packets)
    unfolding round
    push_all-packets packets chunks rest w s e =
        push_all-flatten declared_size header new_framer chunks
        ∙ rw e (push_bytes-run new_framer (flatten packets ++ rest) refl)
        ∙ run_rounds-flatten packets rest 0 w s
