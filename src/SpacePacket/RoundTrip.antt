-- ===== src/SpacePacket/RoundTrip.antt =====
-- build_pus_c_tc and parse_pus_c_tc of shared/src/ccsds.cpp, one behind the other.
use exn_gs.Common.{
  ℕ, ◌+◌, ◌^◌, ◌≤◌, ◌<◌, ◌≡◌, ◌∙◌, refl, ap, arith, true, List, [], ◌∷◌, Option, none, some, length,
  take,
}
use exn_gs.SpacePacket.Library.{ok, TcHeader, Pack}
use exn_gs.Protocol.{no_meta}
use exn_gs.SpacePacket.{
  PusCTcInfo, report, in_context, prepare_primary, add_application_data, build_pus_c_tc,
  parse_pus_c_tc, fill_primary_meta,
}
use exn_gs.SpacePacket.Laws.{Contents, FitsTc, Leaves, IsWhole, Documented}

abbrev pub request : ℕ → ℕ → ℕ → ℕ → TcHeader
request service subservice source ack = record {
  service_type = service;
  service_subtype = subservice;
  source_id = source;
  acknowledgement_flags = ack;
}

-- What a telecommand of the profile holds.
abbrev pub tc_contents : ℕ → ℕ → Option TcHeader → List ℕ → Contents
tc_contents apid seq secondary app = record {
  crc16 = true;
  version_number = 0;
  apid = apid;
  sequence_flags = 3;
  sequence_count = seq;
  secondary = secondary;
  application_data = app;
}

module _ (pack : Pack) (documented : Documented pack) where
  open pack use {Packet, new_packet, tc_header_size, deserialize_tc}
  open documented use {
    contents, new_packet_lem, update_lem, crc16_lem, version_lem, apid_lem, unsegmented_lem,
    count_lem, tc_header_lem, data_lem, serialize_lem, tc_header_read, data_read, version_read,
    apid_read, flags_read, count_read,
  }

  pub prepare_primary_lem :
      (apid seq : ℕ)
      → apid < 2 ^ 11
      → seq < 2 ^ 14
      → Leaves contents (prepare_primary pack new_packet apid seq) (tc_contents apid seq none [])
  unfolding prepare_primary in_context
  prepare_primary_lem apid seq short small =
      let enabled = pack.set_crc16 (pack.set_update_packet_enable true new_packet) in
      let (p1, e1, c1) = version_lem 0 enabled (omega arith) in
      let (p2, e2, c2) = apid_lem apid p1 short in
      let (p3, e3, c3) = count_lem seq (pack.set_unsegmented p2) small in
      rw (e1, e2, e3)
        (
          p3,
          refl,
          c3
              ∙ rw
                  (
                    unsegmented_lem p2,
                    c2,
                    c1,
                    crc16_lem (pack.set_update_packet_enable true new_packet),
                    update_lem true new_packet,
                    new_packet_lem,
                  )
                  refl,
        )

  pub add_application_data_lem :
      (app : List ℕ) (p : Packet)
      → length app + tc_header_size + 2 ≤ 2 ^ 16
      → (contents p).application_data ≡ []
      → Leaves contents
          (add_application_data pack app p)
          (record (contents p) { application_data = app })
  unfolding add_application_data in_context
  add_application_data_lem [] p fits fresh =
      (p, refl, ap (λ (d : List ℕ). record (contents p) { application_data = d }) fresh)
  add_application_data_lem (b ∷ app) p fits fresh =
      let (filled, e, c) = data_lem (b ∷ app) p fits in rw e (filled, refl, c)

  pub build_pus_c_tc_lem :
      (apid seq service subservice source ack : ℕ) (app : List ℕ)
      → apid < 2 ^ 11
      → seq < 2 ^ 14
      → FitsTc (request service subservice source ack)
      → length app + tc_header_size + 2 ≤ 2 ^ 16
      → (bytes : List ℕ) × (build_pus_c_tc pack apid seq service subservice source ack app
          ≡ report (ok bytes))
        × IsWhole pack bytes
        × Leaves contents
            (deserialize_tc bytes (pack.set_crc16 new_packet))
            (tc_contents apid seq (some (request service subservice source ack)) app)
  unfolding build_pus_c_tc in_context
  build_pus_c_tc_lem apid seq service subservice source ack app short small fits room =
      let pus = request service subservice source ack in
      let (p1, e1, c1) = prepare_primary_lem apid seq short small in
      let (p2, e2, c2) = tc_header_lem pus p1 fits in
      let (p3, e3, c3) = add_application_data_lem app p2 room (rw (c2, c1) refl) in
      let c : contents p3 ≡ tc_contents apid seq (some pus) app = rw (c3, c2, c1) refl in
      let (bytes, e4, long, (p4, e5, c4)) =
        serialize_lem p3 (pack.set_crc16 new_packet) pus (rw c refl) (rw c room)
          (rw (crc16_lem new_packet, c) refl) in
      (bytes, rw (e1, e2, e3, e4) refl, long, (p4, e5, c4 ∙ c))

  parse_pus_c_tc_lem :
      (now : ℕ) (bytes : List ℕ) (info : PusCTcInfo) (p : Packet) (pus : TcHeader)
      → deserialize_tc bytes (pack.set_crc16 new_packet) ≡ ok p
      → pack.tc_header p ≡ some pus
      → pus.source_id < 2 ^ 16
      → 6 ≤ length bytes
      → parse_pus_c_tc pack now bytes (some info) ≡ record {
        parsed = true;
        meta = record (fill_primary_meta (pack.primary_header p) (record no_meta { ts_ns = now })) {
          svc = pus.service_type;
          ssvc = pus.service_subtype;
        };
        application_data = pack.application_data p;
        error = [];
        tc_info = some (record {
          source_id = pus.source_id;
          acknowledgement_flags = pus.acknowledgement_flags;
          request_id = take 4 bytes;
        });
      }
  unfolding parse_pus_c_tc fill_primary_meta
  parse_pus_c_tc_lem now bytes info p pus read secondary narrow long = ground arith

  -- Where CCSDSPack keeps what its setters are given within the widths of the fields, and reads a
  -- packet back in the mode in which it was written: a telecommand whose fields fit, and whose data
  -- field does with its header and CRC, is built without error, and the parser takes it without error and gives back the version
  -- 0, the APID, the sequence flags 3, the sequence count, the service and subservice, the application data, and, to a caller that
  -- asks, the source, the acknowledgement flags and the packet's first four bytes.
  pub parse_pus_c_tc-build_pus_c_tc :
      (now apid seq service subservice source ack : ℕ) (app : List ℕ) (info : PusCTcInfo)
      → apid < 2 ^ 11
      → seq < 2 ^ 14
      → FitsTc (request service subservice source ack)
      → length app + tc_header_size + 2 ≤ 2 ^ 16
      → let b = build_pus_c_tc pack apid seq service subservice source ack app in
        let r = parse_pus_c_tc pack now b.packet (some info) in
        ((b.built ≡ true) × (b.error ≡ []))
        × ((r.parsed ≡ true) × (r.error ≡ []))
        × ((r.meta.ver ≡ 0) × (r.meta.apid ≡ apid) × (r.meta.seqf ≡ 3) × (r.meta.seq ≡ seq))
        × ((r.meta.svc ≡ service) × (r.meta.ssvc ≡ subservice) × (r.meta.ts_ns ≡ now))
        × (r.application_data ≡ app)
        × (r.tc_info
            ≡ some (record {
              source_id = source;
              acknowledgement_flags = ack;
              request_id = take 4 b.packet;
            }))
  unfolding fill_primary_meta
  parse_pus_c_tc-build_pus_c_tc now apid seq service subservice source ack app info short small fits
        room =
      let (bytes, built, long, (p, read, c)) =
        build_pus_c_tc_lem apid seq service subservice source ack app short small fits room in
      let secondary : pack.tc_header p ≡ some (request service subservice source ack) =
        tc_header_read p ∙ rw c refl in
      let (fits_service, fits_subtype, narrow, fits_ack) = fits in
      rw
        (
          built,
          parse_pus_c_tc_lem now bytes info p (request service subservice source ack) read secondary
              narrow (omega (arith, long.1)),
        )
        (
          (refl, refl),
          (refl, refl),
          (
            version_read p ∙ rw c refl,
            apid_read p ∙ rw c refl,
            flags_read p ∙ rw c refl,
            count_read p ∙ rw c refl,
          ),
          (refl, refl, refl),
          data_read p ∙ rw c refl,
          refl,
        )
