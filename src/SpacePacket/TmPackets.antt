-- ===== src/SpacePacket/TmPackets.antt =====
-- build_pus_c_tm of shared/src/ccsds.cpp, where CCSDSPack does what it documents.
use mathlib.Core.Path.{subst}
use exn_gs.Common.{codes, Text, ℕ, ◌+◌, ◌*◌, ◌^◌, ◌≤◌, ◌<◌, ◌≡◌, refl, arith, List, [], ◌∷◌, length}
use exn_gs.SpacePacket.Library.{Answer, ok, err, TmHeader, Pack}
use exn_gs.SpacePacket.{
  report, in_context, add_application_data, build_pus_c_tm, current_exn_cuc, exn_tm_tailoring,
}
use exn_gs.SpacePacket.Laws.{IsWhole, Documented, DocumentedTm}
use exn_gs.SpacePacket.Profile.{current_exn_cuc_bounds}
use exn_gs.SpacePacket.RoundTrip.{prepare_primary_lem, add_application_data_lem}

in_context_ok :
    {A : Type 0} (context : Text) (answer : Answer A) (a : A)
    → in_context context answer ≡ ok a
    → answer ≡ ok a
unfolding in_context
in_context_ok context (ok b) a e = e
in_context_ok context (err message) a e = cc

module _ (pack : Pack) (documented : Documented pack) (reports : DocumentedTm pack documented) where
  open pack use {Packet, new_packet, tc_header_size, tm_header_size}
  open documented use {contents}
  open reports use {Carries, tm_header_lem, carried_lem, serialize_tm_lem}

  add_application_data-Carries :
      (app : List ℕ) (h : TmHeader) (p q : Packet)
      → Carries p h
      → add_application_data pack app p ≡ ok q
      → Carries q h
  unfolding add_application_data
  add_application_data-Carries [] h p q carried e =
      let same : p ≡ q = cc in subst (λ (r : Packet). Carries r h) same carried
  add_application_data-Carries (b ∷ app) h p q carried e =
      carried_lem (b ∷ app) h p q carried
        (in_context_ok (codes "set application data") (pack.set_application_data (b ∷ app) p) q e)

  -- A report whose fields fit, at a time before 2 ^ 32 seconds, and whose data field has room with its
  -- header and CRC, is built without error, and is a whole packet.
  pub build_pus_c_tm_lem :
      (now apid seq service subservice counter destination status : ℕ) (app : List ℕ)
      → apid < 2 ^ 11
      → seq < 2 ^ 14
      → service < 2 ^ 8
      → subservice < 2 ^ 8
      → counter < 2 ^ 16
      → destination < 2 ^ 16
      → status < 2 ^ 4
      → now < 2 ^ 32 * 1000000000
      → length app + tc_header_size + 2 ≤ 2 ^ 16
      → length app + tm_header_size exn_tm_tailoring + 2 ≤ 2 ^ 16
      → (bytes : List ℕ) × (build_pus_c_tm pack now apid seq service subservice counter destination
            status app
          ≡ report (ok bytes))
        × IsWhole pack bytes
  unfolding build_pus_c_tm in_context
  build_pus_c_tm_lem now apid seq service subservice counter destination status app a b c d e f g t
        room tm_room =
      let h : TmHeader = record {
        tailoring = exn_tm_tailoring;
        service_type = service;
        service_subtype = subservice;
        message_type_counter = counter;
        destination_id = destination;
        time_reference_status = status;
        time = current_exn_cuc now;
      } in
      let (p1, e1, c1) = prepare_primary_lem pack documented apid seq a b in
      let (fine, product, low, high) = current_exn_cuc_bounds now in
      let early : (current_exn_cuc now).coarse < 2 ^ 32 = omega (arith, low, t) in
      let (p2, e2, carried, same) = tm_header_lem h p1 (c, d, e, f, g, early, fine) in
      let (p3, e3, c3) =
        add_application_data_lem pack documented app p2 room (rw (same, c1) refl) in
      let carried3 = add_application_data-Carries app h p2 p3 carried e3 in
      let (bytes, e4, whole) = serialize_tm_lem p3 h carried3 (rw c3 tm_room) in
      (bytes, rw (e1, e2, e3, e4) refl, whole)
