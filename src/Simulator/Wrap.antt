-- ===== src/Simulator/Wrap.antt =====
-- The simulator's sequence number where it leaves its 14 bits.
use exn_gs.Common.{
  ◌-◌, ◌++◌, ◌%◌, ◌^◌, zero, suc, take, ◌∙◌, ℕ, ◌+◌, ◌<◌, ◌≡◌, refl, arith, true, List, [], ◌∷◌,
  Text, codes, length, ap,
}
use exn_gs.SpacePacket.Library.{Pack, Answer, ok, err, ◌>>=◌}
use exn_gs.SpacePacket.{build_pus_c_tm, prepare_primary, in_context, error_text}
use exn_gs.Mission.{apid_obc}
use exn_gs.Simulator.{TcMessage, unless_empty, build_tm, dispatch}
use exn_gs.Simulator.Dispatch.{Owed, owed, numbered, dispatch-owed}

bind_err {ℓ κ} :
    {A : Type ℓ} {B : Type κ} (a : Answer A) (f : A → Answer B)
    → ((x : A) → (e : Text) × (f x ≡ err e))
    → (e : Text) × ((a >>= f) ≡ err e)
bind_err (ok x) f h = h x
bind_err (err e) f h = (e, refl)

module _ (pack : Pack) (clock : ℕ → ℕ) where
  -- What the library documents of `setSequenceCount`: the count has 14 bits.
  abbrev pub RejectsLongCounts : Type 0
  RejectsLongCounts =
      (n : ℕ) (p : pack.Packet) → 16383 < n → (e : Text) × (pack.set_sequence_count n p ≡ err e)

  module _ (rejects : RejectsLongCounts) where
    prepare_primary_rejected :
        (p : pack.Packet) (apid n : ℕ)
        → 16383 < n
        → (e : Text) × (prepare_primary pack p apid n ≡ err e)
    unfolding prepare_primary in_context
    prepare_primary_rejected p apid n high =
        let versioned =
          in_context (codes "set CCSDS version")
            (pack.set_version_number 0 (pack.set_crc16 (pack.set_update_packet_enable true p))) in
        let addressed = λ (q : pack.Packet). in_context (codes "set APID") (pack.set_apid apid q) in
        let numbered = λ (q : pack.Packet).
          in_context (codes "set sequence count")
            (pack.set_sequence_count n (pack.set_unsegmented q)) in
        bind_err versioned (λ q. addressed q >>= numbered)
          (λ q. bind_err (addressed q) numbered (λ r.
            let (e, h) = rejects n (pack.set_unsegmented r) high in
            (
              error_text (codes "set sequence count") e,
              ap (in_context (codes "set sequence count")) h,
            )))

    build_tm_rejected :
        (now apid n svc ssvc destination : ℕ) (app : List ℕ)
        → 16383 < n
        → build_tm pack now apid n svc ssvc destination app ≡ []
    unfolding build_tm build_pus_c_tm
    build_tm_rejected now apid n svc ssvc destination app high =
        let (e, h) = prepare_primary_rejected pack.new_packet apid n high in rw h refl

    numbered_rejected :
        (destination seq : ℕ) (rs : List Owed)
        → 16383 < seq
        → numbered pack clock destination seq rs ≡ []
    numbered_rejected destination seq [] high = refl
    numbered_rejected destination seq (r ∷ rs) high =
        rw
          (
            build_tm_rejected (clock seq) apid_obc seq r.svc r.ssvc destination r.app high,
            numbered_rejected destination (seq + 1) rs (omega arith),
          )
          refl

    -- `room` is how many numbers of 14 bits are left.
    numbered_cut :
        (destination seq room : ℕ) (rs : List Owed)
        → room ≡ 16384 - seq
        → numbered pack clock destination seq rs
          ≡ numbered pack clock destination seq (take room rs)
    numbered_cut destination seq zero rs e = numbered_rejected destination seq rs (omega arith)
    numbered_cut destination seq (suc room) [] e = refl
    numbered_cut destination seq (suc room) (r ∷ rs) e =
        ap
          (λ (l : List (List ℕ)).
            unless_empty (build_tm pack (clock seq) apid_obc seq r.svc r.ssvc destination r.app)
            ++ l)
          (numbered_cut destination (seq + 1) room rs (omega arith))

    -- `tm_seq`, with 14 bits before a telecommand, may leave them within it: of the reports that the
    -- telecommand is owed, those up to the number 16383 are sent (as far as they can be built), under
    -- consecutive numbers, and all behind them are dropped, while the number still goes on by one for
    -- each, modulo 2 ^ 14. (The library rejects a sequence count of more than 14 bits.)
    pub dispatch_wrap :
        (tm_seq : ℕ) (tc : TcMessage)
        → tm_seq < 2 ^ 14
        → dispatch pack clock tm_seq tc ≡ (
          (tm_seq + length (owed tc)) % 2 ^ 14,
          numbered pack clock tc.pus.source_id tm_seq (take (16384 - tm_seq) (owed tc)),
        )
    dispatch_wrap tm_seq tc small =
        dispatch-owed pack clock tm_seq tc small
        ∙ ap (λ (l : List (List ℕ)). ((tm_seq + length (owed tc)) % 2 ^ 14, l))
            (numbered_cut tc.pus.source_id tm_seq (16384 - tm_seq) (owed tc) refl)
