-- ===== src/Downlink/Fields.antt =====
-- shared/src/ccsds.cpp and daemon/src/app.cpp: the fields of the packets that the clients are told of.
use exn_gs.Common.{ℕ, ◌^◌, ◌<◌, ◌≡◌, arith, List, [], ◌∷◌, All, take, inl, inr}
use exn_gs.Protocol.{PacketMeta, no_meta}
use exn_gs.Protocol.Strings.{IsMeta}
use exn_gs.SpacePacket.{decode_meta, add_service, fill_primary_meta}
use exn_gs.SpacePacket.Library.{Pack}
use exn_gs.SpacePacket.Laws.{IsWhole, Documented}
use exn_gs.Ui.Events.Arrivals.{IsNotified}
use exn_gs.Downlink.Told.{rows_at, Among}

Among-early : (cs : List ℕ) (n : ℕ) → All (λ (c : ℕ). c < 2 ^ 64) cs → Among cs n → n < 2 ^ 64
Among-early [] n early a = absurd a
Among-early (c ∷ cs) n early (inl e) = omega (arith, early.0)
Among-early (c ∷ cs) n early (inr a) = Among-early cs n early.1 a

module _ (pack : Pack) where
  add_service-IsMeta : (p : List ℕ) (m : PacketMeta) → IsMeta m → IsMeta (add_service pack p m)
  unfolding add_service
  add_service-IsMeta p m h = ground arith

  -- The inspection of a whole packet gives fields of their widths.
  decode_meta-IsMeta :
      (now : ℕ) (p : List ℕ)
      → Documented pack
      → now < 2 ^ 64
      → IsWhole pack p
      → IsMeta (decode_meta pack now p).meta
  unfolding decode_meta fill_primary_meta
  decode_meta-IsMeta now p documented early (e, long, short, (primary, f)) =
      let (apid, seq, len) = documented.parse_primary_lem (take 6 p) primary f in
      let filled : PacketMeta = fill_primary_meta primary (record no_meta { ts_ns = now }) in
      let inspected : (decode_meta pack now p).meta ≡ add_service pack p filled =
        ground (arith, e, f) in
      rw inspected (
        add_service-IsMeta p filled
          (record { ts_ns = early; apid = omega arith; seq = omega arith; len = len }))

  pub rows_at-IsNotified :
      (cs nows : List ℕ) (ps : List (List ℕ))
      → Documented pack
      → All (λ (c : ℕ). c < 2 ^ 64) cs
      → All (Among cs) nows
      → All (IsWhole pack) ps
      → All IsNotified (rows_at pack nows ps)
  rows_at-IsNotified cs [] ps documented early among w = tt
  rows_at-IsNotified cs (now ∷ nows) [] documented early among w = tt
  rows_at-IsNotified cs (now ∷ nows) (p ∷ ps) documented early among w = (
    (decode_meta-IsMeta now p documented (Among-early cs now early among.0) w.0, omega arith),
    rows_at-IsNotified cs nows ps documented early among.1 w.1,
  )
