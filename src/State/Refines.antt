-- ===== src/State/Refines.antt =====
-- The store tells its history.
use Prim.Native.Nat.{min}
use exn_gs.Common.{
  ℕ, zero, ◌+◌, ◌-◌, ◌%◌, ◌^◌, ◌≡◌, refl, sym, ap, ◌∙◌, arith, List, [], ◌∷◌, ◌++◌, length,
  length-append, ltb, if◌then◌else◌, some, ◌==◌, append-nil, append_assoc, Bool-cases, ltb→le, inl,
  inr,
}
use exn_gs.Types.{PacketRecord}
use exn_gs.State.{
  Services, find_service, set_service, StateStore, new_store, set_link, on_packet, on_tx,
  on_decode_error, on_framing_error, last_packets,
}
use exn_gs.State.Ring.{last, trim-append, last-last, last_all}
use exn_gs.State.History.{
  Call, links, packets, sends, decode_fails, framing_fails, step, run, received, sent, sum,
  raw_bytes, decode_failures, framing_failures, link_after, seen_after,
}

pub record Tells (s : StateStore) (cap : ℕ) (cs : List Call) : Type 0 where
  pub same_cap : s.cap ≡ cap
  pub ring : s.ring ≡ last cap (received cs)
  pub rx_packets : s.snap.rx_packets ≡ length (received cs) % 2 ^ 64
  pub rx_bytes : s.snap.rx_bytes ≡ raw_bytes (received cs) % 2 ^ 64
  pub tx_packets : s.snap.tx_packets ≡ length (sent cs) % 2 ^ 64
  pub tx_bytes : s.snap.tx_bytes ≡ sum (sent cs) % 2 ^ 64
  pub decode_errors : s.snap.decode_errors ≡ decode_failures cs % 2 ^ 64
  pub framing_errors : s.snap.framing_errors ≡ framing_failures cs % 2 ^ 64

received-append : (cs ds : List Call) → received (cs ++ ds) ≡ received cs ++ received ds
received-append [] ds = refl
received-append (links st detail ∷ cs) ds = received-append cs ds
received-append (packets rec ∷ cs) ds = ap (◌∷◌ rec) (received-append cs ds)
received-append (sends bytes ∷ cs) ds = received-append cs ds
received-append (decode_fails ∷ cs) ds = received-append cs ds
received-append (framing_fails ∷ cs) ds = received-append cs ds

sent-append : (cs ds : List Call) → sent (cs ++ ds) ≡ sent cs ++ sent ds
sent-append [] ds = refl
sent-append (links st detail ∷ cs) ds = sent-append cs ds
sent-append (packets rec ∷ cs) ds = sent-append cs ds
sent-append (sends bytes ∷ cs) ds = ap (◌∷◌ bytes) (sent-append cs ds)
sent-append (decode_fails ∷ cs) ds = sent-append cs ds
sent-append (framing_fails ∷ cs) ds = sent-append cs ds

sum-append : (xs ys : List ℕ) → sum (xs ++ ys) ≡ sum xs + sum ys
sum-append [] ys = omega arith
sum-append (x ∷ xs) ys = omega (arith, sum-append xs ys)

raw_bytes-append : (xs ys : List PacketRecord) → raw_bytes (xs ++ ys) ≡ raw_bytes xs + raw_bytes ys
raw_bytes-append [] ys = omega arith
raw_bytes-append (x ∷ xs) ys = omega (arith, raw_bytes-append xs ys)

failures-append :
    (cs ds : List Call)
    → (decode_failures (cs ++ ds) ≡ decode_failures cs + decode_failures ds)
      × (framing_failures (cs ++ ds) ≡ framing_failures cs + framing_failures ds)
failures-append [] ds = omega arith
failures-append (links st detail ∷ cs) ds = failures-append cs ds
failures-append (packets rec ∷ cs) ds = failures-append cs ds
failures-append (sends bytes ∷ cs) ds = failures-append cs ds
failures-append (decode_fails ∷ cs) ds = omega (arith, failures-append cs ds)
failures-append (framing_fails ∷ cs) ds = omega (arith, failures-append cs ds)

step-Tells :
    (s : StateStore) (cap : ℕ) (cs : List Call) (c : Call)
    → Tells s cap cs
    → Tells (step s c) cap (cs ++ c ∷ [])
unfolding step set_link on_packet on_tx on_decode_error on_framing_error
step-Tells s cap cs (packets rec) t = ground (
  arith,
  received-append cs (packets rec ∷ []),
  sent-append cs (packets rec ∷ []),
  append-nil (sent cs),
  failures-append cs (packets rec ∷ []),
  raw_bytes-append (received cs) (rec ∷ []),
  length-append (received cs) (rec ∷ []),
  trim-append cap (received cs) rec,
)
step-Tells s cap cs (sends bytes) t = ground (
  arith,
  received-append cs (sends bytes ∷ []),
  append-nil (received cs),
  sent-append cs (sends bytes ∷ []),
  failures-append cs (sends bytes ∷ []),
  sum-append (sent cs) (bytes ∷ []),
  length-append (sent cs) (bytes ∷ []),
)
step-Tells s cap cs c t = ground (
  arith,
  received-append cs (c ∷ []),
  append-nil (received cs),
  sent-append cs (c ∷ []),
  append-nil (sent cs),
  failures-append cs (c ∷ []),
)

run-Tells :
    (s : StateStore) (cap : ℕ) (past cs : List Call)
    → Tells s cap past
    → Tells (run s cs) cap (past ++ cs)
unfolding run
run-Tells s cap past [] t = rw (append-nil past) t
run-Tells s cap past (c ∷ cs) t =
    rw (append_assoc past (c ∷ []) cs) at
      (run-Tells (step s c) cap (past ++ c ∷ []) cs (step-Tells s cap past c t))

-- After any calls on a new store the ring holds the last `cap` records received, in order, and each
-- counter is the number, or the number of bytes, of the calls that it counts, modulo 2 ^ 64.
pub run-new_store-Tells : (cap : ℕ) (cs : List Call) → Tells (run (new_store cap) cs) cap cs
run-new_store-Tells cap cs = run-Tells (new_store cap) cap [] cs (record {
  same_cap = refl;
  ring = let e : zero - cap ≡ zero = omega arith in rw e;
  rx_packets = omega arith;
  rx_bytes = omega arith;
  tx_packets = omega arith;
  tx_bytes = omega arith;
  decode_errors = omega arith;
  framing_errors = omega arith;
})

last_packets_lem : (s : StateStore) (n : ℕ) → last_packets s n ≡ last n s.ring
unfolding last_packets
last_packets_lem s n = elim (Bool-cases (ltb n (length s.ring))) [
  | inl e ↦ rw e
  | inr e ↦ rw e (sym (last_all n s.ring (ltb→le n (length s.ring) e)))
]

-- `last_packets` after any calls gives the last `n` records received, or the last `cap` if that is
-- fewer.
pub last_packets-run :
    (cap n : ℕ) (cs : List Call)
    → last_packets (run (new_store cap) cs) n ≡ last (min n cap) (received cs)
last_packets-run cap n cs =
    let s = run (new_store cap) cs in
    let t = run-new_store-Tells cap cs in
    last_packets_lem s n ∙ ap (last n) t.ring ∙ last-last n cap (received cs)

-- The link state and its detail are those of the last `set_link`.
pub run-link :
    (s : StateStore) (cs : List Call)
    → ((run s cs).snap.link, (run s cs).snap.link_detail)
      ≡ link_after (s.snap.link, s.snap.link_detail) cs
unfolding run step set_link on_packet on_tx on_decode_error on_framing_error
run-link s [] = refl
run-link s (links st detail ∷ cs) = run-link (set_link s st detail) cs
run-link s (packets rec ∷ cs) = run-link (on_packet s rec) cs
run-link s (sends bytes ∷ cs) = run-link (on_tx s bytes) cs
run-link s (decode_fails ∷ cs) = run-link (on_decode_error s) cs
run-link s (framing_fails ∷ cs) = run-link (on_framing_error s) cs

find_service-set_service :
    (k j seen : ℕ) (m : Services)
    → find_service k (set_service j seen m) ≡ (if j == k then some seen else find_service k m)
unfolding find_service set_service
find_service-set_service k j seen [] = refl
find_service-set_service k j seen ((i, old) ∷ m) =
    ground (arith, find_service-set_service k j seen m)

-- After any calls a service was last seen at the timestamp of its last record among the packets, or
-- as it was before if it has none.
pub run-services :
    (s : StateStore) (cs : List Call) (k : ℕ)
    → find_service k (run s cs).snap.services
      ≡ seen_after k (find_service k s.snap.services) (received cs)
unfolding run step set_link on_packet on_tx on_decode_error on_framing_error
run-services s [] k = refl
run-services s (links st detail ∷ cs) k = run-services (set_link s st detail) cs k
run-services s (packets rec ∷ cs) k =
    run-services (on_packet s rec) cs k
    ∙ ap (λ o. seen_after k o (received cs))
        (find_service-set_service k rec.service rec.ts_ns s.snap.services)
run-services s (sends bytes ∷ cs) k = run-services (on_tx s bytes) cs k
run-services s (decode_fails ∷ cs) k = run-services (on_decode_error s) cs k
run-services s (framing_fails ∷ cs) k = run-services (on_framing_error s) cs k
