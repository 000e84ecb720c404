-- ===== src/App/Whole.antt =====
-- A serialized packet in the daemon's and the simulator's framers, and in the daemon's inspection.
use exn_gs.Common.{ℕ, ◌≡◌, refl, true, List}
use exn_gs.SpacePacket.{decode_meta}
use exn_gs.SpacePacket.Library.{Pack}
use exn_gs.SpacePacket.Laws.{IsWhole, Documented}
use exn_gs.SpacePacket.Profile.{decode_meta_iff}
use exn_gs.Framer.Chunks.{ReadsHeader}
use exn_gs.Framer.Packets.{IsPacket}
use exn_gs.App.{framer_size}

pub framer_size-ReadsHeader : (pack : Pack) → Documented pack → ReadsHeader (framer_size pack)
unfolding framer_size
framer_size-ReadsHeader pack documented xs ys long =
    rw (documented.declared_size_read xs ys long, framer_size) refl

module _ (pack : Pack) where
  pub framer_size-IsPacket :
      (bytes : List ℕ) → IsWhole pack bytes → IsPacket (framer_size pack) bytes
  unfolding framer_size
  framer_size-IsPacket bytes (e, long, short, primary) = (rw (e, framer_size) refl, long, short)

  pub decoded-IsWhole :
      (now : ℕ) (bytes : List ℕ) → IsWhole pack bytes → (decode_meta pack now bytes).decoded ≡ true
  decoded-IsWhole now bytes (e, long, short, primary) =
      (decode_meta_iff pack now bytes).1 (e, primary)
