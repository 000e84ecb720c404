-- ===== src/App/Packets.antt =====
-- Packets through the daemon, in both directions.
use exn_gs.State.{on_tx}
use exn_gs.Common.{
  ◌⊎◌, inl, inr, Bool-cases, ℕ, ◌≡◌, ◌↔◌, refl, arith, Bool, true, false, List, [], ◌∷◌, ◌++◌, Text,
  codes, length, take, if◌then◌else◌, append_assoc,
}
use exn_gs.Protocol.{packet_tx}
use exn_gs.Framer.{push_bytes, Framer}
use exn_gs.Framer.Chunks.{ReadsHeader, push_bytes-append}
use exn_gs.Framer.Packets.{IsPacket}
use exn_gs.SpacePacket.Library.{Pack, ok, Primary}
use exn_gs.SpacePacket.{decode_meta}
use exn_gs.SerialLink.{posted, write_bytes}
use exn_gs.App.{
  Daemon, Output, send, broadcast, operation, make_packet_frame, make_error_frame, on_packet,
  on_packets, on_bytes, run_effect, run_effects, with_link, route_packet, framer_size, and_then,
  reject_packet, print_packet,
}

abbrev with_framer : Framer → Daemon × List Output → Daemon × List Output
with_framer f (d, outputs) = (record d { framer = f }, outputs)

if_lem :
    (f : Framer) (b : Bool) (x y : Daemon × List Output)
    → (if b then with_framer f x else with_framer f y) ≡ with_framer f (if b then x else y)
if_lem f true x y = refl
if_lem f false x y = refl

module _ (pack : Pack) where
  -- A packet that the framer reports is a valid packet for the daemon's inspection exactly when its
  -- primary header can be read: the size check of `decode_meta` never fails on it.
  pub decode_meta-IsPacket :
      (now : ℕ) (packet : List ℕ)
      → IsPacket (framer_size pack) packet
      → ((decode_meta pack now packet).decoded ≡ true)
        ↔ ((primary : Primary) × (pack.parse_primary (take 6 packet) ≡ ok primary))
  unfolding framer_size decode_meta
  decode_meta-IsPacket now packet (size, lo, hi) = (ground arith, ground arith)

  on_packet-framer :
      (now later : ℕ) (f : Framer) (d : Daemon) (p : List ℕ)
      → on_packet pack now later (record d { framer = f }) p
        ≡ with_framer f (on_packet pack now later d p)
  unfolding on_packet
  on_packet-framer now later f d p = if_lem f (decode_meta pack now p).decoded _ _

  pub on_packets-framer :
      (now later : ℕ) (f : Framer) (d : Daemon) (ps : List (List ℕ))
      → on_packets pack now later (record d { framer = f }) ps
        ≡ with_framer f (on_packets pack now later d ps)
  unfolding on_packets
  on_packets-framer now later f d [] = refl
  on_packets-framer now later f d (p ∷ ps) =
      rw
        (
          on_packet-framer now later f d p,
          on_packets-framer now later f (on_packet pack now later d p).0 ps,
        )
        refl

  on_packets-append :
      (now later : ℕ) (d : Daemon) (ps qs : List (List ℕ))
      → on_packets pack now later d (ps ++ qs)
        ≡ and_then pack (on_packets pack now later d ps) (λ k. on_packets pack now later k qs)
  unfolding on_packets
  on_packets-append now later d [] qs = refl
  on_packets-append now later d (p ∷ ps) qs =
      let k = (on_packet pack now later d p).0 in
      rw
        (
          on_packets-append now later k ps qs,
          append_assoc (on_packet pack now later d p).1 (on_packets pack now later k ps).1
              (on_packets pack now later (on_packets pack now later k ps).0 qs).1,
        )
        refl

  -- Bytes that arrive from the device in two reads have the effect of one read of both, on the
  -- daemon and on its clients, where the clock does not move between them. (The library reads the
  -- declared size from the six bytes of the primary header.)
  pub on_bytes-append :
      (now later : ℕ) (d : Daemon) (xs ys : List ℕ)
      → ReadsHeader (framer_size pack)
      → on_bytes pack now later d (xs ++ ys)
        ≡ and_then pack (on_bytes pack now later d xs) (λ k. on_bytes pack now later k ys)
  unfolding on_bytes
  on_bytes-append now later d xs ys header =
      let first = push_bytes (framer_size pack) d.framer xs in
      let second = push_bytes (framer_size pack) first.0 ys in
      rw
        (
          push_bytes-append (framer_size pack) header d.framer xs ys,
          on_packets-append now later (record d { framer = second.0 }) first.1 second.1,
          on_packets-framer now later second.0 d first.1,
          on_packets-framer now later first.0 d first.1,
        )
        refl

  pub route_packet_lem :
      (now later : ℕ) (d : Daemon) (session : ℕ) (b : ℕ) (rest : List ℕ)
      → let bytes = b ∷ rest in
        let m = decode_meta pack now bytes in
        let sent = route_packet pack now later d session bytes in
        let refused : Text → Daemon × List Output = λ why.
          (d, send session (make_error_frame (codes "Rejected outbound packet: " ++ why)) ∷ []) in
        ((m.decoded ≡ false) × (sent ≡ refused m.error))
        ⊎ ((m.decoded ≡ true)
            × (d.link.opened ≡ false)
            × (sent ≡ refused (codes "device link is disconnected")))
        ⊎ ((m.decoded ≡ true)
            × (d.link.opened ≡ true)
            × (sent.0 ≡ record d { state = on_tx d.state (length bytes) })
            × (sent.1
                ≡ operation (posted bytes)
                  ∷ broadcast (make_packet_frame packet_tx m.meta (codes "TX"))
                  ∷ (if d.verbose
                      then print_packet (codes "[TX->LINK]") m.meta (codes "TX") ∷ []
                      else [])))
  unfolding route_packet reject_packet with_link write_bytes run_effects run_effect
  route_packet_lem now later d session b rest =
      elim (Bool-cases (decode_meta pack now (b ∷ rest)).decoded) [
        | inr e ↦ inl (e, rw e refl)
        | inl e ↦ elim (Bool-cases d.link.opened) [
          | inr f ↦ inr (inl (e, f, rw (e, f) refl))
          | inl f ↦ inr (inr (e, f, rw (e, f) refl, rw (e, f) refl))
        ]
      ]
