-- ===== src/Gsdctl/Replies.antt =====
-- tools/gsdctl/main.cpp: the whole program on the frames of the daemon.
use mathlib.Core.Path.{subst}
use mathlib.Core.List.{flatten}
use exn_gs.Common.{
  ℕ, suc, ◌≤◌, ◌<◌, ◌≡◌, inl, inr, refl, arith, ap, List, [], ◌∷◌, ◌++◌, Text, codes, All, length,
  length-append,
}
use exn_gs.Protocol.{Frame, encode}
use exn_gs.Protocol.Frames.{length-encode}
use exn_gs.Protocol.Stream.Chunks.{encode_all, IsWellFormed}
use exn_gs.Gsdctl.{
  Arrival, Output, warns, sends, print_frame, Verdict, stops, Waited, behind, read_until, Requested,
  requests, refuses, request_of, judge, until_link, exits, hangs, runs_off, Outcome, follow, total,
  ask, session,
}
use exn_gs.Gsdctl.Reading.{
  IsChunked, received, Result, finished, waiting, broken, Told, tell, Agrees, read_until-tell,
  option_cases, verdict_cases,
}

-- The program on the frames themselves.
abbrev pub follow_told : Told → (ℕ → List Frame → Outcome) → Outcome
follow_told t go = elim t.result [
  | finished code fs ↦ let o = go code fs in record { shown = t.printed ++ o.shown; exit = o.exit }
  | waiting ↦ record { shown = t.printed; exit = hangs }
  | broken ↦ record { shown = t.printed; exit = runs_off }
]

abbrev pub ask_told : Requested → List Frame → Outcome
ask_told (refuses why) fs = record { shown = warns why ∷ []; exit = exits 1 }
ask_told (requests r) fs =
    let t = tell (judge r) fs in
    follow_told (record t { printed = sends (encode r.request) ∷ t.printed })
      (λ code fs'. record { shown = []; exit = exits code })

-- A first frame, frames up to a link state, and the reply to the request.
abbrev pub session_told : Text → List Text → List Frame → Outcome
session_told name args fs = follow_told (tell (λ f. stops 0) fs) (λ code fs'.
    follow_told (tell until_link fs') (λ code' fs''. ask_told (request_of name args) fs''))

tell_left :
    (verdict : Frame → Verdict) (fs fs' : List Frame) (code : ℕ)
    → All IsWellFormed fs
    → (tell verdict fs).result ≡ finished code fs'
    → (length fs' ≤ length fs) × All IsWellFormed fs'
tell_left verdict [] fs' code w e = cc
tell_left verdict (f ∷ fs) fs' code w e = elim (option_cases (print_frame f)) [
  | inl p ↦ let q = rw (p, tell) at e in cc
  | inr (outputs, p) ↦ elim (verdict_cases (verdict f)) [
    | inl v ↦
        let q : (tell verdict fs).result ≡ finished code fs' = rw (p, v, tell) at e in
        let (short, w') = tell_left verdict fs fs' code w.1 q in (omega arith, w')
    | inr (inl v) ↦ let q = rw (p, v, tell) at e in cc
    | inr (inr (n, v)) ↦
        let q : finished n fs ≡ finished code fs' = rw (p, v, tell) at e in
        let same : fs ≡ fs' = cc in
        (omega (arith, ap (λ (l : List Frame). length l) same), subst (All IsWellFormed) same w.1)
  ]
]

-- The two runs of a loop agree, and what follows does.
follow-told :
    (why : Text) (w : Waited) (shown : List Output) (r : Result)
    (go : ℕ → List ℕ → List Arrival → Outcome) (go' : ℕ → List Frame → Outcome)
    → w.printed ≡ shown
    → Agrees w.ended r
    → ((code : ℕ) (rest : List ℕ) (chunks : List (List ℕ)) (fs : List Frame)
        → r ≡ finished code fs
        → IsChunked chunks
        → rest ++ flatten chunks ≡ encode_all fs
        → go code rest (received chunks) ≡ go' code fs)
    → follow why w go ≡ follow_told (record { printed = shown; result = r }) go'
follow-told why w shown (finished code fs) go go' p (rest, chunks, a, c, e) h =
    rw (p, a, h code rest chunks fs refl c e) refl
follow-told why w shown waiting go go' p a h = rw (p, a) refl
follow-told why w shown broken go go' p a h = rw (p, a) refl

ask-told :
    (fuel : ℕ) (r : Requested) (rest : List ℕ) (chunks : List (List ℕ)) (fs : List Frame)
    → length fs < fuel
    → All IsWellFormed fs
    → IsChunked chunks
    → rest ++ flatten chunks ≡ encode_all fs
    → ask fuel r rest (received chunks) ≡ ask_told r fs
unfolding ask
ask-told fuel (refuses why) rest chunks fs h w c e = refl
ask-told fuel (requests r) rest chunks fs h w c e =
    let (p, a) = read_until-tell (judge r) fuel rest chunks fs h w c e in
    follow-told (codes "Error: daemon closed IPC before replying\n")
      (behind (sends (encode r.request) ∷ []) (read_until (judge r) fuel rest (received chunks)))
      (sends (encode r.request) ∷ (tell (judge r) fs).printed) (tell (judge r) fs).result _ _
      (ap (λ (l : List Output). sends (encode r.request) ∷ l) p) a
      (λ code rest' chunks' fs' q c' e'. refl)

total-received : (chunks : List (List ℕ)) → total (received chunks) ≡ length (flatten chunks)
unfolding flatten
total-received [] = refl
total-received (chunk ∷ chunks) =
    omega (arith, length-append chunk (flatten chunks), total-received chunks)

length-encode_all : (fs : List Frame) → length fs ≤ length (encode_all fs)
length-encode_all [] = omega arith
length-encode_all (f ∷ fs) =
    omega (arith, length-append (encode f) (encode_all fs), length-encode f, length-encode_all fs)

-- However the daemon's frames are cut into reads: the program prints, sends and exits as it would
-- with the frames themselves, one after the other. It gives up for want of fuel in no case, and waits
-- for ever only where the frames run out before the reply.
pub session-told :
    (name : Text) (args : List Text) (chunks : List (List ℕ)) (fs : List Frame)
    → All IsWellFormed fs
    → IsChunked chunks
    → flatten chunks ≡ encode_all fs
    → session name args (received chunks) ≡ session_told name args fs
unfolding session
session-told name args chunks fs w c e =
    let fuel = suc (total (received chunks)) in
    let enough : length fs < fuel =
      omega (arith, total-received chunks, ap (λ (l : List ℕ). length l) e, length-encode_all fs) in
    let (p, a) = read_until-tell (λ f. stops 0) fuel [] chunks fs enough w c e in
    follow-told _ _ _ (tell (λ f. stops 0) fs).result _ _ p a (λ code rest chunks' fs' q c' e'.
      let (short, w') = tell_left (λ f. stops 0) fs fs' code w q in
      let (p', a') = read_until-tell until_link fuel rest chunks' fs' (omega arith) w' c' e' in
      follow-told _ _ _ (tell until_link fs').result _ _ p' a'
        (λ code' rest' chunks'' fs'' q' c'' e''.
          let (short', w'') = tell_left until_link fs' fs'' code' w' q' in
          ask-told fuel (request_of name args) rest' chunks'' fs'' (omega arith) w'' c'' e''))
