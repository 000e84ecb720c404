-- ===== src/App/Routing.antt =====
-- The packets that clients send, on their way to the device link.
use exn_gs.Common.{
  ℕ, ◌≡◌, refl, arith, ap, sym, ◌∙◌, Bool, inl, inr, true, false, ◌&&◌, not, List, [], ◌∷◌, ◌++◌,
  map, codes, length, if◌then◌else◌,
}
use exn_gs.Protocol.{Frame, packet_send, packet_tx}
use exn_gs.SpacePacket.Library.{Pack}
use exn_gs.SpacePacket.{decode_meta}
use exn_gs.State.{StateStore, on_tx}
use exn_gs.SerialLink.{Pending, posted, PortAnswer}
use exn_gs.App.{
  Daemon, Output, send, broadcast, store, operation, print_packet, undefined, make_packet_frame,
  make_error_frame, route_packet, on_frame, and_then,
}
use exn_gs.App.Packets.{route_packet_lem}

-- A PacketSend of a client's session, at its time; the packet is not empty.
pub record Sending : Type 0 where
  pub now : ℕ
  pub later : ℕ
  pub answer : PortAnswer
  pub session : ℕ
  pub first : ℕ
  pub rest : List ℕ

abbrev pub packet_of : Sending → List ℕ
packet_of x = x.first ∷ x.rest

abbrev pub collect {ℓ} : {B : Type ℓ} → (Output → List B) → List Output → List B
collect f [] = []
collect f (o ∷ os) = f o ++ collect f os

abbrev pub operation_of : Output → List Pending
operation_of (operation p) = p ∷ []
operation_of (send session f) = []
operation_of (broadcast f) = []
operation_of (store r) = []
operation_of (print_packet t m d) = []
operation_of undefined = []

abbrev pub broadcast_of : Output → List Frame
broadcast_of (broadcast f) = f ∷ []
broadcast_of (operation p) = []
broadcast_of (send session f) = []
broadcast_of (store r) = []
broadcast_of (print_packet t m d) = []
broadcast_of undefined = []

abbrev pub reply_of : Output → List (ℕ × Frame)
reply_of (send session f) = (session, f) ∷ []
reply_of (broadcast f) = []
reply_of (operation p) = []
reply_of (store r) = []
reply_of (print_packet t m d) = []
reply_of undefined = []

abbrev pub kept {ℓ} : {A : Type ℓ} → (A → Bool) → List A → List A
kept test [] = []
kept test (a ∷ rest) = if test a then a ∷ kept test rest else kept test rest

-- The TX counters after these packets.
abbrev pub all_tx : StateStore → List Sending → StateStore
all_tx s [] = s
all_tx s (x ∷ xs) = all_tx (on_tx s (length (packet_of x))) xs

module _ (pack : Pack) where
  abbrev pub run_sends : Daemon → List Sending → Daemon × List Output
  run_sends d [] = (d, [])
  run_sends d (x ∷ xs) =
      and_then pack
        (on_frame pack x.now x.later x.answer d x.session
          (record { type = packet_send; payload = packet_of x }))
        (λ d'. run_sends d' xs)

  abbrev pub is_valid : Sending → Bool
  is_valid x = (decode_meta pack x.now (packet_of x)).decoded

  -- What every client is told of a packet that goes out.
  abbrev pub told_out : Sending → Frame
  told_out x = make_packet_frame packet_tx (decode_meta pack x.now (packet_of x)).meta (codes "TX")

  abbrev pub refusal : Sending → ℕ × Frame
  refusal x = (
    x.session,
    make_error_frame (
        codes "Rejected outbound packet: "
        ++ (if is_valid x
            then codes "device link is disconnected"
            else (decode_meta pack x.now (packet_of x)).error)),
  )

  -- What the clients' packets come to, where `opened` says that the link is open: the two results of a
  -- run from `d`.
  abbrev pub IsRouted : Daemon → Bool → List Sending → Daemon × List Output → Type 0
  IsRouted d opened xs (d', outputs) =
      let good = kept (λ x. opened && is_valid x) xs in
      let bad = kept (λ x. not (opened && is_valid x)) xs in
      (collect operation_of outputs ≡ map (λ x. posted (packet_of x)) good)
      × (collect broadcast_of outputs ≡ map told_out good)
      × (collect reply_of outputs ≡ map refusal bad)
      × (d' ≡ record d { state = all_tx d.state good })

  -- Behind a packet that is refused, and behind one that is not.
  refused-IsRouted :
      (d : Daemon) (opened : Bool) (x : Sending) (xs : List Sending) (frame : Frame)
      → (opened && is_valid x) ≡ false
      → refusal x ≡ (x.session, frame)
      → route_packet pack x.now x.later d x.session (packet_of x) ≡ (d, send x.session frame ∷ [])
      → IsRouted d opened xs (run_sends d xs)
      → IsRouted d opened (x ∷ xs) (run_sends d (x ∷ xs))
  unfolding on_frame
  refused-IsRouted d opened x xs frame stopped why sent (a, b, c, f) =
      rw (sent, stopped)
        (
          a,
          b,
          ap (λ (r : List (ℕ × Frame)). (x.session, frame) ∷ r) c
              ∙ ap (λ (y : ℕ × Frame). y ∷ map refusal (kept (λ z. not (opened && is_valid z)) xs))
                  (sym why),
          f,
        )

  passed-IsRouted :
      (d : Daemon) (opened verbose : Bool) (x : Sending) (xs : List Sending)
      → (opened && is_valid x) ≡ true
      → let d' = record d { state = on_tx d.state (length (packet_of x)) } in
        let m = (decode_meta pack x.now (packet_of x)).meta in
        (route_packet pack x.now x.later d x.session (packet_of x) ≡ (
          d',
          operation (posted (packet_of x))
              ∷ broadcast (told_out x)
              ∷ (if verbose then print_packet (codes "[TX->LINK]") m (codes "TX") ∷ [] else []),
        ))
        → IsRouted d' opened xs (run_sends d' xs)
        → IsRouted d opened (x ∷ xs) (run_sends d (x ∷ xs))
  unfolding on_frame
  passed-IsRouted d opened true x xs passes sent (a, b, c, f) =
      rw (sent, passes)
        (
          ap (λ (r : List Pending). posted (packet_of x) ∷ r) a,
          ap (λ (r : List Frame). told_out x ∷ r) b,
          c,
          f,
        )
  passed-IsRouted d opened false x xs passes sent (a, b, c, f) =
      rw (sent, passes)
        (
          ap (λ (r : List Pending). posted (packet_of x) ∷ r) a,
          ap (λ (r : List Frame). told_out x ∷ r) b,
          c,
          f,
        )

  run_sends_lem :
      (d : Daemon) (opened : Bool) (xs : List Sending)
      → d.link.opened ≡ opened
      → IsRouted d opened xs (run_sends d xs)
  run_sends_lem d opened [] e = (refl, refl, refl, refl)
  run_sends_lem d opened (x ∷ xs) e =
      elim (route_packet_lem pack x.now x.later d x.session x.first x.rest) [
        | inl (refused, sent) ↦
            refused-IsRouted d opened x xs _ (ground (arith, refused)) (rw refused refl) sent
              (run_sends_lem d opened xs e)
        | inr (inl (fine, closed, sent)) ↦
            refused-IsRouted d opened x xs _ (ground (arith, fine, closed, e)) (rw fine refl) sent
              (run_sends_lem d opened xs e)
        | inr (inr (fine, open_link, same, sent)) ↦
            passed-IsRouted d opened d.verbose x xs (ground (arith, fine, open_link, e))
              (λ i. (same i, sent i))
              (run_sends_lem (record d { state = on_tx d.state (length (packet_of x)) }) opened xs
                e)
      ]

  -- Whatever packets the daemon's clients send one after the other, none of them empty, while the link stays
  -- open, or stays closed: every packet that the inspection accepts while the link is open, and no other, is
  -- handed to the link, in their order, each once and unaltered; as many times, and in that order, all
  -- clients are told its metadata; every other is answered to its sender alone, with the inspection's
  -- error or that the device link is disconnected; and nothing of the daemon has changed but the TX
  -- counters, which have gone up by the packets handed over.
  pub run_sends-IsRouted :
      (d : Daemon) (xs : List Sending) → IsRouted d d.link.opened xs (run_sends d xs)
  run_sends-IsRouted d xs = run_sends_lem d d.link.opened xs refl
