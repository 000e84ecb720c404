-- ===== src/Simulator/Dispatch.antt =====
-- The simulator's reports to a telecommand.
use exn_gs.Common.{
  ℕ, suc, ◌+◌, ◌%◌, ◌^◌, ◌≤◌, ◌<◌, ◌≡◌, refl, arith, Bool, true, false, List, [], ◌∷◌, ◌++◌, length,
  length-append, append-nil, append_assoc, ap, ◌∙◌, sym, if◌then◌else◌, Bool-cases, inl, inr, ◌==◌,
}
use exn_gs.SpacePacket.Library.{Pack}
use exn_gs.Mission.{apid_obc, svc_hk}
use exn_gs.Simulator.{
  TcMessage, has_flag, unless_empty, supported_request, make_hk_report, make_system_hk_report,
  make_verification_success, make_verification_failure, build_tm, report, dispatch,
}

-- A report that a telecommand is owed: service, subtype and application data.
pub record Owed : Type 0 where
  pub svc : ℕ
  pub ssvc : ℕ
  pub app : List ℕ

abbrev when {ℓ} : {A : Type ℓ} → Bool → A → List A
when b a = if b then a ∷ [] else []

-- What the ECSS verification service and the housekeeping service ask for, in order.
abbrev pub owed : TcMessage → List Owed
owed tc =
    let flags = tc.pus.acknowledgement_flags in
    let success = tc.pus.request_id in
    if supported_request tc
    then when (has_flag 8 flags) (record { svc = 1; ssvc = 1; app = success })
      ++ when (has_flag 4 flags) (record { svc = 1; ssvc = 3; app = success })
      ++ (if tc.meta.ssvc == 27
          then record { svc = 3; ssvc = 25; app = make_hk_report }
          else record { svc = 3; ssvc = 129; app = make_system_hk_report tc })
        ∷ when (has_flag 1 flags) (record { svc = 1; ssvc = 7; app = success })
    else when (has_flag 8 flags)
        (record { svc = 1; ssvc = 2; app = make_verification_failure tc 1 })

module _ (pack : Pack) (clock : ℕ → ℕ) where
  -- The packets of reports that are numbered on from `seq`.
  abbrev pub numbered : ℕ → ℕ → List Owed → List (List ℕ)
  numbered destination seq [] = []
  numbered destination seq (r ∷ rs) =
      unless_empty (build_tm pack (clock seq) apid_obc seq r.svc r.ssvc destination r.app)
      ++ numbered destination (seq + 1) rs

  abbrev numbered_from : ℕ → ℕ → List Owed → ℕ × List (List ℕ)
  numbered_from destination seq rs = (seq + length rs, numbered destination seq rs)

  numbered-append :
      (destination seq : ℕ) (rs : List Owed) (r : Owed)
      → numbered destination seq (rs ++ r ∷ [])
        ≡ numbered destination seq rs
          ++ unless_empty (
              build_tm pack
                (clock (seq + length rs))
                apid_obc
                (seq + length rs)
                r.svc
                r.ssvc
                destination
                r.app)
  numbered-append destination seq [] r =
      let e : seq + 0 ≡ seq = omega arith in rw (e, append-nil) refl
  numbered-append destination seq (x ∷ rs) r =
      let e : seq + suc (length rs) ≡ seq + 1 + length rs = omega arith in
      rw (e, numbered-append destination (seq + 1) rs r)
        (sym (
          append_assoc
            (unless_empty (build_tm pack (clock seq) apid_obc seq x.svc x.ssvc destination x.app))
            (numbered destination (seq + 1) rs) _))

  report-when :
      (destination seq : ℕ) (rs : List Owed) (b : Bool) (r : Owed) (sent : ℕ × List (List ℕ))
      → sent ≡ numbered_from destination seq rs
      → seq + length rs < 65535
      → (if b then report pack clock r.svc r.ssvc destination r.app sent else sent)
        ≡ numbered_from destination seq (rs ++ when b r)
  unfolding report
  report-when destination seq rs false r sent h room = rw (append-nil rs) h
  report-when destination seq rs true r sent h room =
      let e : (seq + length rs + 1) % 2 ^ 16 ≡ seq + length (rs ++ r ∷ []) =
        omega (arith, length-append rs (r ∷ [])) in
      rw (h, e, numbered-append destination seq rs r) refl

  when_short : (b : Bool) (r : Owed) → length (when b r) ≤ 1
  when_short true r = omega arith
  when_short false r = omega arith

  -- The four reports to a supported telecommand; `reply` is the housekeeping report.
  four_reports :
      (destination seq : ℕ) (a b c : Bool) (accepted started reply completed : Owed)
      → seq < 2 ^ 14
      → let send : Owed → ℕ × List (List ℕ) → ℕ × List (List ℕ) =
          λ r sent. report pack clock r.svc r.ssvc destination r.app sent in
        let s1 = if a then send accepted (seq, []) else (seq, []) in
        let s2 = if b then send started s1 else s1 in
        let s3 = send reply s2 in
        (if c then send completed s3 else s3)
        ≡ numbered_from destination seq
            (when a accepted ++ when b started ++ reply ∷ when c completed)
  four_reports destination seq a b c accepted started reply completed small =
      let h0 : (seq, []) ≡ numbered_from destination seq [] =
        ap (λ (k : ℕ). (k, [])) (omega arith) in
      let h1 = report-when destination seq [] a accepted (seq, []) h0 (omega arith) in
      let h2 =
        report-when destination seq (when a accepted) b started _ h1
          (omega (arith, when_short a accepted)) in
      let h3 = report-when destination seq (when a accepted ++ when b started) true reply _ h2 (
        omega (
          arith,
          when_short a accepted,
          when_short b started,
          length-append (when a accepted) (when b started),
        )) in
      let h4 =
        report-when destination seq ((when a accepted ++ when b started) ++ reply ∷ []) c completed
          _ h3
          (omega (
            arith,
            when_short a accepted,
            when_short b started,
            length-append (when a accepted) (when b started),
            length-append (when a accepted ++ when b started) (reply ∷ []),
          )) in
      h4
      ∙ ap (numbered_from destination seq)
          (append_assoc (when a accepted ++ when b started) (reply ∷ []) (when c completed))

  -- The dispatcher answers a telecommand with the reports that it is owed, in order, with
  -- consecutive sequence numbers from `tm_seq` on, which has 14 bits; those that cannot be built
  -- are left out. The next telecommand's first number is the next one, modulo 2^14.
  pub dispatch-owed :
      (tm_seq : ℕ) (tc : TcMessage)
      → tm_seq < 2 ^ 14
      → dispatch pack clock tm_seq tc
        ≡ ((tm_seq + length (owed tc)) % 2 ^ 14, numbered tc.pus.source_id tm_seq (owed tc))
  unfolding dispatch supported_request make_verification_success
  dispatch-owed tm_seq tc small =
      let flags = tc.pus.acknowledgement_flags in
      let destination = tc.pus.source_id in
      let end : ℕ × List (List ℕ) → ℕ × List (List ℕ) = λ r. (r.0 % 2 ^ 14, r.1) in
      let refused =
        report-when destination tm_seq [] (has_flag 8 flags)
          (record { svc = 1; ssvc = 2; app = make_verification_failure tc 1 }) (tm_seq, [])
          (ap (λ (k : ℕ). (k, [])) (omega arith)) (omega arith) in
      elim (Bool-cases (tc.meta.svc == svc_hk)) [
        | inr e ↦ rw e (ap end refused)
        | inl e ↦ elim (Bool-cases (tc.meta.ssvc == 27)) [
          | inl f ↦
              rw (e, f)
                (ap end (
                  four_reports destination tm_seq (has_flag 8 flags) (has_flag 4 flags)
                    (has_flag 1 flags) (record { svc = 1; ssvc = 1; app = tc.pus.request_id })
                    (record { svc = 1; ssvc = 3; app = tc.pus.request_id })
                    (record { svc = 3; ssvc = 25; app = make_hk_report })
                    (record { svc = 1; ssvc = 7; app = tc.pus.request_id }) small))
          | inr f ↦ elim (Bool-cases (tc.meta.ssvc == 128)) [
            | inl g ↦
                rw (e, f, g)
                  (ap end (
                    four_reports destination tm_seq (has_flag 8 flags) (has_flag 4 flags)
                      (has_flag 1 flags) (record { svc = 1; ssvc = 1; app = tc.pus.request_id })
                      (record { svc = 1; ssvc = 3; app = tc.pus.request_id })
                      (record { svc = 3; ssvc = 129; app = make_system_hk_report tc })
                      (record { svc = 1; ssvc = 7; app = tc.pus.request_id }) small))
            | inr g ↦ rw (e, f, g) (ap end refused)
          ]
        ]
      ]
