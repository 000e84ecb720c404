-- ===== src/State.antt =====
-- daemon/include/exn/daemon/state.hpp and daemon/src/state.cpp: the daemon's counters, the state of
-- the device link and the ring of recent packets. The mutex makes each method one step.
pub mod Ring
pub mod History
pub mod Refines
use exn_gs.Common.{
  ℕ, ◌+◌, ◌-◌, ◌%◌, ◌^◌, List, [], ◌∷◌, ◌++◌, Option, none, some, Text, length, drop, ltb, ◌==◌,
  if◌then◌else◌,
}
use exn_gs.Types.{LinkState, disconnected, PacketRecord}

-- `std::unordered_map<uint8_t, ServiceStatus>` as an association list; a status is its
-- `last_seen_ns`.
abbrev pub Services : Type 0
Services = List (ℕ × ℕ)

unfoldable pub find_service : ℕ → Services → Option ℕ
find_service k [] = none
find_service k ((j, seen) ∷ m) = if j == k then some seen else find_service k m

-- `services[k].last_seen_ns = seen`
unfoldable pub set_service : ℕ → ℕ → Services → Services
set_service k seen [] = (k, seen) ∷ []
set_service k seen ((j, old) ∷ m) =
    if j == k then (k, seen) ∷ m else (j, old) ∷ set_service k seen m

pub record StateSnapshot : Type 0 where
  pub link : LinkState
  pub link_detail : Text
  pub rx_packets : ℕ
  pub rx_bytes : ℕ
  pub tx_packets : ℕ
  pub tx_bytes : ℕ
  pub decode_errors : ℕ
  pub framing_errors : ℕ
  pub services : Services

pub record StateStore : Type 0 where
  pub cap : ℕ
  pub snap : StateSnapshot
  pub ring : List PacketRecord

abbrev pub new_snapshot : StateSnapshot
new_snapshot = record {
  link = disconnected;
  link_detail = [];
  rx_packets = 0;
  rx_bytes = 0;
  tx_packets = 0;
  tx_bytes = 0;
  decode_errors = 0;
  framing_errors = 0;
  services = [];
}

abbrev pub new_store : ℕ → StateStore
new_store ring_capacity = record { cap = ring_capacity; snap = new_snapshot; ring = [] }

-- Addition of uint64_t.
abbrev pub add_u64 : ℕ → ℕ → ℕ
add_u64 a b = (a + b) % 2 ^ 64

-- `while (ring_.size() > cap_) ring_.pop_front();`
unfoldable pub trim {ℓ} : {A : Type ℓ} → ℕ → List A → List A
trim cap [] = []
trim cap (x ∷ xs) = let rest = trim cap xs in if ltb cap (length (x ∷ xs)) then rest else x ∷ xs

unfoldable pub set_link : StateStore → LinkState → Text → StateStore
set_link s st detail =
    let snap = s.snap in record s { snap = record snap { link = st; link_detail = detail } }

unfoldable pub on_packet : StateStore → PacketRecord → StateStore
on_packet s rec =
    let snap = s.snap in
    record s {
      snap = record snap {
        rx_packets = add_u64 snap.rx_packets 1;
        rx_bytes = add_u64 snap.rx_bytes (length rec.raw);
        services = set_service rec.service rec.ts_ns snap.services;
      };
      ring = trim s.cap (s.ring ++ rec ∷ []);
    }

unfoldable pub on_tx : StateStore → ℕ → StateStore
on_tx s bytes =
    let snap = s.snap in
    record s {
      snap = record snap {
        tx_packets = add_u64 snap.tx_packets 1;
        tx_bytes = add_u64 snap.tx_bytes bytes;
      };
    }

unfoldable pub on_decode_error : StateStore → StateStore
on_decode_error s =
    let snap = s.snap in
    record s { snap = record snap { decode_errors = add_u64 snap.decode_errors 1 } }

unfoldable pub on_framing_error : StateStore → StateStore
on_framing_error s =
    let snap = s.snap in
    record s { snap = record snap { framing_errors = add_u64 snap.framing_errors 1 } }

unfoldable pub snapshot : StateStore → StateSnapshot
snapshot s = s.snap

unfoldable pub last_packets : StateStore → ℕ → List PacketRecord
last_packets s n = if ltb n (length s.ring) then drop (length s.ring - n) s.ring else s.ring
