-- ===== src/App/Delivery.antt =====
-- From the bytes of the device to the stored packets.
use mathlib.Core.List.{flatten}
use exn_gs.Common.{
  ℕ, ◌≡◌, refl, List, [], ◌∷◌, ◌++◌, All, append_assoc, Bool-cases, inl, inr, ap, sym, ◌∙◌,
}
use exn_gs.Framer.{Framer, new_framer, round, stop, push_bytes, push_all}
use exn_gs.Framer.Chunks.{ReadsHeader}
use exn_gs.Framer.Packets.{IsPacket, push_all-packets}
use exn_gs.SpacePacket.Library.{Pack}
use exn_gs.SpacePacket.{decode_meta}
use exn_gs.App.{
  Daemon, Output, send, broadcast, store, operation, print_packet, undefined, on_packet, on_packets,
  on_bytes, framer_size, and_then, record_of,
}
use exn_gs.App.Packets.{on_packets-framer}

-- The bytes that are stored with a packet.
abbrev stored_of : Output → List (List ℕ)
stored_of (store rec) = rec.raw ∷ []
stored_of (send session frame) = []
stored_of (broadcast frame) = []
stored_of (operation p) = []
stored_of (print_packet prefix meta desc) = []
stored_of undefined = []

abbrev pub stored : List Output → List (List ℕ)
stored [] = []
stored (o ∷ os) = stored_of o ++ stored os

stored-append : (xs ys : List Output) → stored (xs ++ ys) ≡ stored xs ++ stored ys
stored-append [] ys = refl
stored-append (x ∷ xs) ys =
    ap (λ (r : List (List ℕ)). stored_of x ++ r) (stored-append xs ys)
    ∙ sym (append_assoc (stored_of x) (stored xs) (stored ys))

module _ (pack : Pack) where
  -- Reads of the device, each with its two readings of the clock.
  abbrev pub on_reads : Daemon → List (ℕ × ℕ × List ℕ) → Daemon × List Output
  on_reads d [] = (d, [])
  on_reads d ((now, later, bytes) ∷ rs) =
      and_then pack (on_bytes pack now later d bytes) (λ k. on_reads k rs)

  abbrev pub bytes_of : List (ℕ × ℕ × List ℕ) → List (List ℕ)
  bytes_of [] = []
  bytes_of ((now, later, bytes) ∷ rs) = bytes ∷ bytes_of rs

  stored-on_packet :
      (now later : ℕ) (d : Daemon) (p : List ℕ) → stored (on_packet pack now later d p).1 ≡ p ∷ []
  unfolding on_packet record_of
  stored-on_packet now later d p = elim (Bool-cases (decode_meta pack now p).decoded) [
    | inr e ↦ rw e refl
    | inl e ↦ elim (Bool-cases d.verbose) [ inl v ↦ rw (e, v) refl | inr v ↦ rw (e, v) refl ]
  ]

  stored-on_packets :
      (now later : ℕ) (d : Daemon) (ps : List (List ℕ))
      → stored (on_packets pack now later d ps).1 ≡ ps
  unfolding on_packets
  stored-on_packets now later d [] = refl
  stored-on_packets now later d (p ∷ ps) =
      let r = on_packet pack now later d p in
      rw
        (
          stored-append r.1 (on_packets pack now later r.0 ps).1,
          stored-on_packet now later d p,
          stored-on_packets now later r.0 ps,
        )
        refl

  pub on_bytes-framer :
      (now later : ℕ) (d : Daemon) (bytes : List ℕ)
      → (on_bytes pack now later d bytes).0.framer
        ≡ (push_bytes (framer_size pack) d.framer bytes).0
  unfolding on_bytes
  on_bytes-framer now later d bytes =
      let (f, ps) = push_bytes (framer_size pack) d.framer bytes in
      ap (λ (r : Daemon × List Output). r.0.framer) (on_packets-framer pack now later f d ps)

  stored-on_reads :
      (d : Daemon) (rs : List (ℕ × ℕ × List ℕ))
      → stored (on_reads d rs).1 ≡ (push_all (framer_size pack) d.framer (bytes_of rs)).1
  unfolding push_all
  stored-on_reads d [] = refl
  stored-on_reads d ((now, later, bytes) ∷ rs) =
      let r = on_bytes pack now later d bytes in
      let (f, ps) = push_bytes (framer_size pack) d.framer bytes in
      let first : stored r.1 ≡ ps =
        unfold on_bytes in stored-on_packets now later (record d { framer = f }) ps in
      rw
        (
          stored-append r.1 (on_reads r.0 rs).1,
          first,
          stored-on_reads r.0 rs,
          on_bytes-framer now later d bytes,
        )
        refl

  -- Where the device sends whole packets, and then perhaps the beginning of one, the daemon stores
  -- exactly these packets, in their order and unaltered, however the bytes are cut into reads and
  -- whether or not the inspection accepts them. (The framer starts empty.) (The library reads the
  -- declared size from the six bytes of the primary header.)
  pub on_reads-packets :
      (d : Daemon) (rs : List (ℕ × ℕ × List ℕ)) (packets : List (List ℕ)) (rest : List ℕ)
      → ReadsHeader (framer_size pack)
      → d.framer ≡ new_framer
      → All (IsPacket (framer_size pack)) packets
      → round (framer_size pack) rest ≡ stop
      → flatten (bytes_of rs) ≡ flatten packets ++ rest
      → stored (on_reads d rs).1 ≡ packets
  on_reads-packets d rs packets rest header fresh w s e =
      stored-on_reads d rs
      ∙ ap (λ (f : Framer). (push_all (framer_size pack) f (bytes_of rs)).1) fresh
      ∙ ap (λ (r : Framer × List (List ℕ)). r.1)
          (push_all-packets (framer_size pack) header packets (bytes_of rs) rest w s e)
