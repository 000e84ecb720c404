-- ===== src/Simulator/Trace.antt =====
-- sim/src/main.cpp: what the simulator prints, line by line; most of it only with `-v`.
use exn_gs.Common.{
  ℕ, ◌≡◌, ◌⊎◌, inl, inr, refl, Bool, true, not, List, [], ◌∷◌, ◌++◌, Option, none, some, Text,
  codes, to_string, starts_with, length, ◌==◌, if◌then◌else◌, Bool-cases,
}
use exn_gs.Mission.{apid_obc}
use exn_gs.Protocol.{PacketMeta}
use exn_gs.SpacePacket.Library.{Pack}
use exn_gs.SpacePacket.{no_tc_info, parse_pus_c_tc, build_pus_c_tm, decode_meta}
use exn_gs.Framer.{push_bytes}
use exn_gs.App.{framer_size}
use exn_gs.Simulator.{TcMessage, accept_tc, supported_request}
use exn_gs.Simulator.Sessions.{SimLink}

abbrev numbers : PacketMeta → Text
numbers m =
    codes "APID="
    ++ to_string m.apid
    ++ codes " SEQ="
    ++ to_string m.seq
    ++ codes " SVC="
    ++ to_string m.svc
    ++ codes " SSV="
    ++ to_string m.ssvc

abbrev bytes_text : List ℕ → Text
bytes_text [] = []
bytes_text (b ∷ bytes) = to_string b ++ codes " " ++ bytes_text bytes

-- `if (g_verbose.load())`
abbrev pub traced : Bool → List Text → List Text
traced verbose lines = if verbose then lines else []

abbrev pub session_line : Text
session_line = codes "[EXN SIM] start session"

unfoldable accepted_trace : Bool → Option Text → List Text
accepted_trace verbose (some message) =
    traced verbose ((codes "[EXN SIM] accept error: " ++ message) ∷ session_line ∷ [])
accepted_trace verbose none = traced verbose (codes "[EXN SIM] client connected" ∷ [])

unfoldable pub dispatch_trace : Bool → TcMessage → List Text
dispatch_trace verbose tc =
    if supported_request tc
    then []
    else traced verbose (
        (codes "[EXN SIM] unsupported PUS-C TC SVC="
          ++ to_string tc.meta.svc
          ++ codes " SSV="
          ++ to_string tc.meta.ssvc)
        ∷ [])

module _ (pack : Pack) (now : ℕ) where
  -- The last line on a packet of the framer.
  unfoldable pub verdict : List ℕ → Text
  verdict bytes =
      let p = parse_pus_c_tc pack now bytes (some no_tc_info) in
      if not p.parsed
      then codes "[EXN SIM RX] rejected packet: " ++ p.error
      else if not (p.meta.apid == apid_obc)
      then codes "[EXN SIM RX] TC not addressed to MCU: APID=" ++ to_string p.meta.apid
      else codes "[EXN SIM RX] TC " ++ numbers p.meta

  unfoldable pub packet_trace : Bool → List ℕ → List Text
  unfolding verdict
  packet_trace verbose bytes = traced verbose (
      (codes "[EXN SIM RX] buffer length: " ++ to_string (length bytes))
      ∷ (codes "[EXN SIM RX] Data in: " ++ bytes_text bytes)
      ∷ verdict bytes
      ∷ [])

  packet_traces : Bool → List (List ℕ) → List Text
  unfolding packet_trace
  packet_traces verbose [] = []
  packet_traces verbose (p ∷ ps) = packet_trace verbose p ++ packet_traces verbose ps

  unfoldable read_trace : Bool → SimLink → Option Text → List ℕ → List Text
  unfolding packet_traces
  read_trace verbose l (some message) bytes =
      traced verbose ((codes "[EXN SIM] read error: " ++ message) ∷ session_line ∷ [])
  read_trace verbose l none bytes =
      packet_traces verbose (push_bytes (framer_size pack) l.framer bytes).1

  -- Of `build_tm`, with or without `-v`.
  unfoldable build_trace : ℕ → ℕ → ℕ → ℕ → ℕ → List ℕ → List Text
  build_trace apid seq svc ssvc destination_id application_data =
      let b = build_pus_c_tm pack now apid seq svc ssvc seq destination_id 0 application_data in
      if b.built then [] else (codes "[EXN SIM TX] cannot build PUS-C TM: " ++ b.error) ∷ []

  -- Of a round of `tm_tx_task`.
  unfoldable tm_trace : Bool → SimLink → List ℕ → List Text
  tm_trace verbose l bytes =
      let d = decode_meta pack now bytes in
      traced verbose (
        (if not l.connected
          then codes "[EXN SIM TX] not connected, dropping TM"
          else if d.decoded
          then codes "[EXN SIM TX] TM " ++ numbers d.meta
          else codes "[EXN SIM TX] invalid TM: " ++ d.error)
        ∷ [])

  -- What a verdict tells of the packet, by what the callback does with it.
  abbrev Tells : Text → Option TcMessage → Type 0
  Tells line (some tc) = line ≡ codes "[EXN SIM RX] TC " ++ numbers tc.meta
  Tells line none =
      (starts_with line (codes "[EXN SIM RX] rejected packet: ") ≡ true)
      ⊎ (starts_with line (codes "[EXN SIM RX] TC not addressed to MCU: APID=") ≡ true)

  -- With `-v`, the trace of a packet names the telecommand that is queued, or says that it was
  -- rejected or is for another unit, as the callback does.
  verdict-accept_tc : (bytes : List ℕ) → Tells (verdict bytes) (accept_tc pack now bytes)
  unfolding verdict accept_tc
  verdict-accept_tc bytes =
      let p = parse_pus_c_tc pack now bytes (some no_tc_info) in
      elim (Bool-cases p.parsed) [
        | inr e ↦ rw (e) (inl refl)
        | inl e ↦ elim (Bool-cases (p.meta.apid == apid_obc)) [
          | inl f ↦ rw (e, f) refl
          | inr f ↦ rw (e, f) (inr refl)
        ]
      ]
