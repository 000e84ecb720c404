-- ===== src/SpacePacket.antt =====
-- shared/include/exn/shared/ccsds.hpp and shared/src/ccsds.cpp: the EXN profile of Space Packets on
-- top of CCSDSPack. `now` is what `exn::now_ns()` answers.
pub mod Library
pub mod Profile
pub mod Laws
pub mod RoundTrip
pub mod TmPackets
use exn_gs.Common.{
  ℕ, zero, ◌+◌, ◌*◌, ◌/◌, ◌%◌, Bool, true, false, List, [], ◌∷◌, ◌++◌, Option, none, some, Text,
  codes, length, take, drop, ltb, ◌==◌, if◌then◌else◌, leb, ◌^◌,
}
use exn_gs.Protocol.{PacketMeta, no_meta}
use Library.{
  Answer, ok, err, ◌>>=◌, Primary, TcHeader, TmHeader, CucTime, TmTailoring, agency_defined,
  implicit, Pack,
}

-- `set_error`
unfoldable pub error_text : Text → Text → Text
error_text context message = context ++ codes ": " ++ message

-- A call whose error the caller reports in its context.
unfoldable pub in_context {ℓ} : {A : Type ℓ} → Text → Answer A → Answer A
in_context context (ok a) = ok a
in_context context (err message) = err (error_text context message)

pub record PusCTcInfo : Type 0 where
  pub source_id : ℕ
  pub acknowledgement_flags : ℕ
  pub request_id : List ℕ

abbrev pub no_tc_info : PusCTcInfo
no_tc_info = record { source_id = 0; acknowledgement_flags = 0; request_id = 0 ∷ 0 ∷ 0 ∷ 0 ∷ [] }

abbrev pub exn_tm_tailoring : TmTailoring
exn_tm_tailoring = record {
  timestamp_present = true;
  epoch = agency_defined;
  p_field = implicit;
  coarse_octets = 4;
  fine_octets = 2;
  secondary_header_spare_octets = 0;
}

unfoldable pub current_exn_cuc : ℕ → CucTime
current_exn_cuc now =
    let remainder = now % 1000000000 in
    record { coarse = now / 1000000000; fine = remainder * 65536 / 1000000000 }

unfoldable pub fill_primary_meta : Primary → PacketMeta → PacketMeta
fill_primary_meta primary meta = record meta {
  ver = primary.version_number;
  typ = primary.type;
  shf = primary.secondary_header_flag;
  apid = primary.apid;
  seqf = primary.sequence_flags;
  seq = primary.sequence_count;
  len = primary.data_length;
}

-- The result of the builders and their two output parameters.
pub record Built : Type 0 where
  pub built : Bool
  pub packet : List ℕ
  pub error : Text

-- Both outputs are cleared first; the packet is set last, and only if all went well.
abbrev pub report : Answer (List ℕ) → Built
report (ok bytes) = record { built = true; packet = bytes; error = [] }
report (err e) = record { built = false; packet = []; error = e }

pub record ParsedTc : Type 0 where
  pub parsed : Bool
  pub meta : PacketMeta
  pub application_data : List ℕ
  pub error : Text
  pub tc_info : Option PusCTcInfo

pub record DecodedMeta : Type 0 where
  pub decoded : Bool
  pub meta : PacketMeta
  pub error : Text

module _ (pack : Pack) where
  open pack use {
    Packet, new_packet, set_update_packet_enable, set_crc16, set_version_number, set_apid,
    set_unsegmented, set_sequence_count, set_tc_header, set_tm_header, set_application_data,
    serialize, deserialize_tc, primary_header, tc_header, application_data, declared_size,
    parse_primary, tc_header_size, parse_tc_header, tm_header_size, parse_tm_header,
  }

  unfoldable pub prepare_primary : Packet → ℕ → ℕ → Answer Packet
  unfolding in_context error_text
  prepare_primary packet apid sequence_count = do
    let enabled = set_crc16 (set_update_packet_enable true packet)
    versioned ← in_context (codes "set CCSDS version") (set_version_number 0 enabled)
    addressed ← in_context (codes "set APID") (set_apid apid versioned)
    in_context (codes "set sequence count")
        (set_sequence_count sequence_count (set_unsegmented addressed))

  -- `if (!application_data.empty())`
  unfoldable pub add_application_data : List ℕ → Packet → Answer Packet
  unfolding in_context error_text
  add_application_data [] packet = ok packet
  add_application_data (b ∷ bytes) packet =
      in_context (codes "set application data") (set_application_data (b ∷ bytes) packet)

  unfoldable pub build_pus_c_tc : ℕ → ℕ → ℕ → ℕ → ℕ → ℕ → List ℕ → Built
  unfolding prepare_primary add_application_data
  build_pus_c_tc apid sequence_count service subservice source_id ack_flags app_bytes =
      let pus : TcHeader = record {
        service_type = service;
        service_subtype = subservice;
        source_id = source_id;
        acknowledgement_flags = ack_flags;
      } in
      report (do
        prepared ← prepare_primary new_packet apid sequence_count
        headed ← in_context (codes "set PUS-C TC secondary header") (set_tc_header pus prepared)
        filled ← add_application_data app_bytes headed
        in_context (codes "serialize Space Packet") (serialize filled))

  unfoldable pub build_pus_c_tm : ℕ → ℕ → ℕ → ℕ → ℕ → ℕ → ℕ → ℕ → List ℕ → Built
  unfolding prepare_primary add_application_data current_exn_cuc
  build_pus_c_tm now apid sequence_count service subservice message_type_counter destination_id
        time_reference_status app_bytes =
      let pus : TmHeader = record {
        tailoring = exn_tm_tailoring;
        service_type = service;
        service_subtype = subservice;
        message_type_counter = message_type_counter;
        destination_id = destination_id;
        time_reference_status = time_reference_status;
        time = current_exn_cuc now;
      } in
      report (do
        prepared ← prepare_primary new_packet apid sequence_count
        headed ← in_context (codes "set PUS-C TM secondary header") (set_tm_header pus prepared)
        filled ← add_application_data app_bytes headed
        in_context (codes "serialize Space Packet") (serialize filled))

  -- `tc_info` is `none` for a null pointer; it is written only when the packet is accepted.
  unfoldable pub parse_pus_c_tc : ℕ → List ℕ → Option PusCTcInfo → ParsedTc
  unfolding error_text fill_primary_meta
  parse_pus_c_tc now packet tc_info =
      let fresh = record no_meta { ts_ns = now } in
      elim (deserialize_tc packet (set_crc16 new_packet)) [
        | err e ↦ record {
          parsed = false;
          meta = fresh;
          application_data = [];
          error = error_text (codes "parse PUS-C TC") e;
          tc_info = tc_info;
        }
        | ok space_packet ↦
            let meta = fill_primary_meta (primary_header space_packet) fresh in
            elim (tc_header space_packet) [
              | none ↦ record {
                parsed = false;
                meta = meta;
                application_data = [];
                error = codes "parse PUS-C TC: secondary header is missing";
                tc_info = tc_info;
              }
              | some secondary ↦ record {
                parsed = true;
                meta = record meta {
                  svc = secondary.service_type;
                  ssvc = secondary.service_subtype;
                };
                application_data = application_data space_packet;
                error = [];
                tc_info = elim tc_info [
                  | none ↦ none
                  | some _ ↦ some (record {
                    source_id = secondary.source_id % 2 ^ 16;
                    acknowledgement_flags = secondary.acknowledgement_flags;
                    request_id =
                        if leb 4 (length packet) then take 4 packet else 0 ∷ 0 ∷ 0 ∷ 0 ∷ [];
                  })
                ];
              }
            ]
      ]

  -- The service and subtype of the secondary header that stands behind the primary header, if it is
  -- all there and can be read.
  unfoldable pub with_service : ℕ → (List ℕ → Answer (ℕ × ℕ)) → List ℕ → PacketMeta → PacketMeta
  with_service header_size parse packet meta =
      if leb (6 + header_size) (length packet)
      then elim (parse (take header_size (drop 6 packet))) [
        | err _ ↦ meta
        | ok (svc, ssvc) ↦ record meta { svc = svc; ssvc = ssvc }
      ]
      else meta

  -- Best effort, behind an accepted primary header.
  unfoldable pub add_service : List ℕ → PacketMeta → PacketMeta
  unfolding with_service
  add_service packet meta =
      if meta.shf == 0
      then meta
      else if meta.typ == 1
      then with_service tc_header_size parse_tc_header packet meta
      else with_service (tm_header_size exn_tm_tailoring) (parse_tm_header exn_tm_tailoring) packet
          meta

  unfoldable pub decode_meta : ℕ → List ℕ → DecodedMeta
  unfolding error_text fill_primary_meta add_service
  decode_meta now packet =
      let fresh = record no_meta { ts_ns = now } in
      elim (declared_size packet) [
        | err e ↦ record {
          decoded = false;
          meta = fresh;
          error = error_text (codes "inspect Space Packet") e;
        }
        | ok size ↦
            let accepted : DecodedMeta = elim (parse_primary (take 6 packet)) [
              | err e ↦ record {
                decoded = false;
                meta = fresh;
                error = error_text (codes "parse primary header") e;
              }
              | ok primary ↦ record {
                decoded = true;
                meta = add_service packet (fill_primary_meta primary fresh);
                error = [];
              }
            ] in
            if size == length packet then accepted else record {
              decoded = false;
              meta = fresh;
              error = codes "Space Packet size does not match CCSDS Packet Data Length";
            }
      ]
