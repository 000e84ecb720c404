-- ===== src/Tests/Framing.antt =====
-- Concrete byte streams.
use mathlib.Core.List.{flatten}
use exn_gs.Common.{ℕ, ◌≡◌, refl, arith, List, [], ◌∷◌, ◌++◌, All}
use exn_gs.Framer.{new_framer, round, stop, push_bytes, push_all, run_rounds, frame_loop}
use exn_gs.Framer.Packets.{
  IsPacket, Accounts, push_bytes_drained, push_bytes-IsPacket, push_bytes-Accounts,
  push_all-packets,
}
use exn_gs.Tests.Instances.{demo_size, demo_size-ReadsHeader, ask_hk, ask_hk-IsPacket}

-- Two packets and a beginning of a third, cut in the middle of the second.
abbrev cut : List (List ℕ)
cut = (ask_hk ++ 25 ∷ 0 ∷ 192 ∷ 1 ∷ 0 ∷ 4 ∷ 32 ∷ []) ∷ (3 ∷ 27 ∷ 0 ∷ 16 ∷ 25 ∷ 0 ∷ []) ∷ []

cut_lem : flatten cut ≡ flatten (ask_hk ∷ ask_hk ∷ []) ++ 25 ∷ 0 ∷ []
unfolding flatten
cut_lem = refl

beginning : round demo_size (25 ∷ 0 ∷ []) ≡ stop
unfolding round
beginning = refl

push_all-packets_example :
    push_all demo_size new_framer cut
    ≡ (record new_framer { acc = 25 ∷ 0 ∷ [] }, ask_hk ∷ ask_hk ∷ [])
push_all-packets_example =
    push_all-packets demo_size demo_size-ReadsHeader (ask_hk ∷ ask_hk ∷ []) cut (25 ∷ 0 ∷ [])
      (ask_hk-IsPacket, (ask_hk-IsPacket, tt)) beginning cut_lem

push_bytes-IsPacket_example :
    All (IsPacket demo_size) (push_bytes demo_size new_framer (255 ∷ ask_hk)).1
push_bytes-IsPacket_example =
    push_bytes-IsPacket demo_size demo_size-ReadsHeader new_framer (255 ∷ ask_hk)

push_bytes-Accounts_example :
    Accounts demo_size new_framer 12 (push_bytes demo_size new_framer (255 ∷ ask_hk))
push_bytes-Accounts_example =
    push_bytes-Accounts demo_size new_framer (255 ∷ ask_hk) refl (omega arith)

push_bytes_drained_example :
    round demo_size (push_bytes demo_size new_framer (255 ∷ ask_hk)).0.acc ≡ stop
push_bytes_drained_example = push_bytes_drained demo_size new_framer 255 ask_hk

-- A byte that begins no packet is dropped.
noise :
    push_bytes demo_size new_framer (255 ∷ ask_hk)
    ≡ (record new_framer { framing_errors = 1 }, ask_hk ∷ [])
unfolding push_bytes run_rounds frame_loop round
noise = refl
