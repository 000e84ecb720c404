-- ===== src/Downlink/Told.antt =====
-- daemon/src/app.cpp: what the clients are told of the device's packets.
use mathlib.Core.Path.{subst}
use exn_gs.Common.{
  length-replicate, ℕ, zero, suc, ◌≡◌, ◌⊎◌, refl, ap, sym, ◌∙◌, arith, List, [], ◌∷◌, ◌++◌, codes,
  All, All-append, All-left, All-right, length, length-append, replicate, append_assoc, inl, inr,
  Bool-cases,
}
use exn_gs.Protocol.{Frame, packet_rx}
use exn_gs.SpacePacket.{decode_meta}
use exn_gs.SpacePacket.Library.{Pack}
use exn_gs.SpacePacket.Laws.{IsWhole}
use exn_gs.Framer.{Framer, push_bytes, push_all}
use exn_gs.App.{
  Daemon, Output, send, broadcast, store, operation, print_packet, undefined, framer_size,
  on_packet, on_packets, on_bytes, make_packet_frame,
}
use exn_gs.App.Delivery.{on_reads, bytes_of, on_bytes-framer}
use exn_gs.App.Whole.{decoded-IsWhole}
use exn_gs.Ui.{PacketRow}
use exn_gs.Ui.Events.Arrivals.{notifications}

-- The frames that every client is told.
abbrev told_of : Output → List Frame
told_of (broadcast frame) = frame ∷ []
told_of (store rec) = []
told_of (send session frame) = []
told_of (operation p) = []
told_of (print_packet prefix meta desc) = []
told_of undefined = []

abbrev pub told : List Output → List Frame
told [] = []
told (o ∷ os) = told_of o ++ told os

told-append : (xs ys : List Output) → told (xs ++ ys) ≡ told xs ++ told ys
told-append [] ys = refl
told-append (x ∷ xs) ys =
    ap (λ (r : List Frame). told_of x ++ r) (told-append xs ys)
    ∙ sym (append_assoc (told_of x) (told xs) (told ys))

notifications-append :
    (xs ys : List PacketRow) → notifications (xs ++ ys) ≡ notifications xs ++ notifications ys
notifications-append [] ys = refl
notifications-append (x ∷ xs) ys =
    ap (λ (r : List Frame). make_packet_frame packet_rx x.m x.desc ∷ r) (notifications-append xs ys)

-- The daemon's readings of the clock, one with each read.
abbrev pub clocks : List (ℕ × ℕ × List ℕ) → List ℕ
clocks [] = []
clocks ((now, later, bytes) ∷ rs) = now ∷ clocks rs

abbrev pub Among : List ℕ → ℕ → Type 0
Among [] n = ⊥
Among (c ∷ cs) n = (n ≡ c) ⊎ Among cs n

later-Among : (c : ℕ) (cs nows : List ℕ) → All (Among cs) nows → All (Among (c ∷ cs)) nows
later-Among c cs [] h = tt
later-Among c cs (n ∷ nows) h = (inr h.0, later-Among c cs nows h.1)

replicate-Among : (count c : ℕ) (cs : List ℕ) → All (Among (c ∷ cs)) (replicate count c)
replicate-Among zero c cs = tt
replicate-Among (suc count) c cs = (inl refl, replicate-Among count c cs)

module _ (pack : Pack) where
  -- The row of a packet that is inspected at a time.
  abbrev pub row_at : ℕ → List ℕ → PacketRow
  row_at now p = record { m = (decode_meta pack now p).meta; desc = codes "RX" }

  abbrev pub rows_at : List ℕ → List (List ℕ) → List PacketRow
  rows_at [] ps = []
  rows_at (now ∷ nows) [] = []
  rows_at (now ∷ nows) (p ∷ ps) = row_at now p ∷ rows_at nows ps

  rows_at-append :
      (xs ys : List ℕ) (ps qs : List (List ℕ))
      → length xs ≡ length ps
      → rows_at (xs ++ ys) (ps ++ qs) ≡ rows_at xs ps ++ rows_at ys qs
  rows_at-append [] ys [] qs e = refl
  rows_at-append [] ys (p ∷ ps) qs e = absurd (omega (arith, e))
  rows_at-append (x ∷ xs) ys [] qs e = absurd (omega (arith, e))
  rows_at-append (x ∷ xs) ys (p ∷ ps) qs e =
      ap (λ (r : List PacketRow). row_at x p ∷ r) (rows_at-append xs ys ps qs (omega (arith, e)))

  told-on_packet :
      (now later : ℕ) (d : Daemon) (p : List ℕ)
      → IsWhole pack p
      → told (on_packet pack now later d p).1 ≡ notifications (row_at now p ∷ [])
  unfolding on_packet
  told-on_packet now later d p whole =
      let e = decoded-IsWhole pack now p whole in
      elim (Bool-cases d.verbose) [ inl v ↦ rw (e, v) refl | inr v ↦ rw (e, v) refl ]

  told-on_packets :
      (now later : ℕ) (d : Daemon) (ps : List (List ℕ))
      → All (IsWhole pack) ps
      → told (on_packets pack now later d ps).1
        ≡ notifications (rows_at (replicate (length ps) now) ps)
  unfolding on_packets
  told-on_packets now later d [] w = refl
  told-on_packets now later d (p ∷ ps) w =
      let r = on_packet pack now later d p in
      rw
        (
          told-append r.1 (on_packets pack now later r.0 ps).1,
          told-on_packet now later d p w.0,
          told-on_packets now later r.0 ps w.1,
        )
        refl

  -- The clients are told of the packets in the bytes, each inspected at the time of the read that ends it.
  abbrev pub IsTold : Framer → Daemon → List (ℕ × ℕ × List ℕ) → Type 0
  IsTold f d rs =
      let packets = (push_all (framer_size pack) f (bytes_of pack rs)).1 in
      (nows : List ℕ) × (length nows ≡ length packets)
      × All (Among (clocks rs)) nows
      × (told (on_reads pack d rs).1 ≡ notifications (rows_at nows packets))

  pub on_reads-IsTold :
      (d : Daemon) (rs : List (ℕ × ℕ × List ℕ))
      → All (IsWhole pack) (push_all (framer_size pack) d.framer (bytes_of pack rs)).1
      → IsTold d.framer d rs
  unfolding push_all
  on_reads-IsTold d [] w = ([], refl, tt, refl)
  on_reads-IsTold d ((now, later, bytes) ∷ rs) w =
      let r = on_bytes pack now later d bytes in
      let (f, ps) = push_bytes (framer_size pack) d.framer bytes in
      let qs = (push_all (framer_size pack) f (bytes_of pack rs)).1 in
      let framer : r.0.framer ≡ f = on_bytes-framer pack now later d bytes in
      let first : told r.1 ≡ notifications (rows_at (replicate (length ps) now) ps) =
        unfold on_bytes in
        told-on_packets now later (record d { framer = f }) ps (All-left (IsWhole pack) ps qs w) in
      let later_whole =
        subst
          (λ (g : Framer). All (IsWhole pack) (push_all (framer_size pack) g (bytes_of pack rs)).1)
          (sym framer) (All-right (IsWhole pack) ps qs w) in
      let (nows, same, among, rest) =
        subst (λ (g : Framer). IsTold g r.0 rs) framer (on_reads-IsTold r.0 rs later_whole) in
      let times = replicate (length ps) now in
      let enough : length times ≡ length ps = length-replicate (length ps) now in
      (
        times ++ nows,
        omega (arith, length-append times nows, length-append ps qs),
        All-append (Among (now ∷ clocks rs)) times nows
            (replicate-Among (length ps) now (clocks rs)) (later-Among now (clocks rs) nows among),
        told-append r.1 (on_reads pack r.0 rs).1
            ∙ rw (first, rest, rows_at-append times nows ps qs enough)
                (sym (notifications-append (rows_at times ps) (rows_at nows qs))),
      )
