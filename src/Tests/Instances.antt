-- ===== src/Tests/Instances.antt =====
-- A small stand-in for CCSDSPack, and packets for it.
use exn_gs.Common.{
  ℕ, ◌+◌, ◌*◌, ◌/◌, ◌%◌, refl, arith, List, [], ◌∷◌, ◌++◌, Option, none, some, codes, length, drop,
  ltb, if◌then◌else◌,
}
use exn_gs.SpacePacket.Library.{ok, err, Primary, TcHeader, Pack}
use exn_gs.Framer.Chunks.{ReadsHeader}
use exn_gs.Framer.Packets.{IsPacket}
use exn_gs.App.{framer_size}
use exn_gs.Simulator.Wrap.{RejectsLongCounts}

-- Version 0 only.
abbrev pub demo_size : List ℕ → Option ℕ
demo_size [] = none
demo_size (a ∷ []) = none
demo_size (a ∷ b ∷ []) = none
demo_size (a ∷ b ∷ c ∷ []) = none
demo_size (a ∷ b ∷ c ∷ d ∷ []) = none
demo_size (a ∷ b ∷ c ∷ d ∷ e ∷ []) = none
demo_size (a ∷ b ∷ c ∷ d ∷ e ∷ f ∷ rest) = if ltb a 32 then some (7 + 256 * e + f) else none

abbrev demo_primary : List ℕ → Primary
demo_primary (a ∷ b ∷ c ∷ d ∷ e ∷ f ∷ rest) = record {
  version_number = a / 32;
  type = a / 16 % 2;
  secondary_header_flag = a / 8 % 2;
  apid = a % 8 * 256 + b;
  sequence_flags = c / 64;
  sequence_count = c % 64 * 256 + d;
  data_length = 256 * e + f;
}
demo_primary _ = record {
  version_number = 0;
  type = 0;
  secondary_header_flag = 0;
  apid = 0;
  sequence_flags = 0;
  sequence_count = 0;
  data_length = 0;
}

abbrev demo_header : TcHeader
demo_header = record {
  service_type = 3;
  service_subtype = 27;
  source_id = 16;
  acknowledgement_flags = 9;
}

abbrev pub demo : Pack
demo = record {
  Packet = List ℕ;
  new_packet = [];
  set_update_packet_enable = λ b p. p;
  set_crc16 = λ p. p;
  set_version_number = λ n p. ok p;
  set_apid = λ n p. ok p;
  set_unsegmented = λ p. p;
  set_sequence_count = λ n p. if ltb 16383 n then err (codes "out of range") else ok p;
  set_tc_header = λ h p. ok (32 ∷ h.service_type ∷ h.service_subtype ∷ p);
  set_tm_header = λ h p. ok (32 ∷ h.service_type ∷ h.service_subtype ∷ p);
  set_application_data = λ bytes p. ok (p ++ bytes);
  serialize = λ p. ok (9 ∷ 0 ∷ 192 ∷ 0 ∷ 0 ∷ length p ∷ p ++ 0 ∷ []);
  deserialize_tc = λ bytes p. ok bytes;
  primary_header = demo_primary;
  tc_header = λ p. some demo_header;
  application_data = λ p. drop 11 p;
  declared_size = λ bytes. elim (demo_size bytes) [ none ↦ err (codes "short") | some n ↦ ok n ];
  parse_primary = λ bytes. ok (demo_primary bytes);
  tc_header_size = 5;
  parse_tc_header = λ bytes. ok (3, 27);
  tm_header_size = λ t. 13;
  parse_tm_header = λ t bytes. ok (3, 25);
}

pub demo_size-ReadsHeader : ReadsHeader demo_size
demo_size-ReadsHeader [] ys h = absurd (omega arith)
demo_size-ReadsHeader (a ∷ []) ys h = absurd (omega arith)
demo_size-ReadsHeader (a ∷ b ∷ []) ys h = absurd (omega arith)
demo_size-ReadsHeader (a ∷ b ∷ c ∷ []) ys h = absurd (omega arith)
demo_size-ReadsHeader (a ∷ b ∷ c ∷ d ∷ []) ys h = absurd (omega arith)
demo_size-ReadsHeader (a ∷ b ∷ c ∷ d ∷ e ∷ []) ys h = absurd (omega arith)
demo_size-ReadsHeader (a ∷ b ∷ c ∷ d ∷ e ∷ f ∷ rest) ys h = refl

pub demo-ReadsHeader : ReadsHeader (framer_size demo)
unfolding framer_size
demo-ReadsHeader [] ys h = absurd (omega arith)
demo-ReadsHeader (a ∷ []) ys h = absurd (omega arith)
demo-ReadsHeader (a ∷ b ∷ []) ys h = absurd (omega arith)
demo-ReadsHeader (a ∷ b ∷ c ∷ []) ys h = absurd (omega arith)
demo-ReadsHeader (a ∷ b ∷ c ∷ d ∷ []) ys h = absurd (omega arith)
demo-ReadsHeader (a ∷ b ∷ c ∷ d ∷ e ∷ []) ys h = absurd (omega arith)
demo-ReadsHeader (a ∷ b ∷ c ∷ d ∷ e ∷ f ∷ rest) ys h = refl

pub demo-RejectsLongCounts : RejectsLongCounts demo (λ seq. 0)
demo-RejectsLongCounts n p high = (codes "out of range", ground (arith, high))

-- A telecommand to APID 256 for service 3, subtype 27.
abbrev pub ask_hk : List ℕ
ask_hk = 25 ∷ 0 ∷ 192 ∷ 1 ∷ 0 ∷ 4 ∷ 32 ∷ 3 ∷ 27 ∷ 0 ∷ 16 ∷ []

pub ask_hk-IsPacket : IsPacket demo_size ask_hk
ask_hk-IsPacket = (refl, omega arith, omega arith)
