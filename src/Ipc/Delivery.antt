-- ===== src/Ipc/Delivery.antt =====
-- What a session delivers to the daemon.
use mathlib.Core.List.{flatten}
use exn_gs.Common.{
  ℕ, ◌≡◌, refl, true, false, List, [], ◌∷◌, ◌++◌, none, All, ap, ◌∙◌, append_assoc, ◌||◌, ◌==◌,
  if◌then◌else◌, arith, Bool-cases, inl, inr,
}
use exn_gs.Protocol.{
  MsgType, hello, link_state, packet_rx, packet_tx, error, command, query, query_result,
  packet_send, unnamed, type_code, of_code, Frame,
}
use exn_gs.Protocol.Frames.{IsSendable}
use exn_gs.Protocol.Stream.{Received, receive, receive_all}
use exn_gs.Protocol.Stream.Chunks.{encode_all, IsWellFormed, receive_all-encode_all}
use exn_gs.Ipc.{
  IpcSession, new_session, Effect, posts, writes, delivers, reads, undefined, is_request, requests,
  deliver_all, on_read,
}

-- Reads that complete without error, one after the other.
abbrev pub read_all : IpcSession → List (List ℕ) → IpcSession × List Effect
read_all s [] = (s, [])
read_all s (chunk ∷ chunks) =
    let (s', es) = on_read true s none chunk in
    ((read_all s' chunks).0, es ++ (read_all s' chunks).1)

abbrev pub delivered : List Effect → List Frame
delivered [] = []
delivered (delivers f ∷ es) = f ∷ delivered es
delivered (posts bytes ∷ es) = delivered es
delivered (writes bytes ∷ es) = delivered es
delivered (reads ∷ es) = delivered es
delivered (undefined ∷ es) = delivered es

delivered-append : (xs ys : List Effect) → delivered (xs ++ ys) ≡ delivered xs ++ delivered ys
delivered-append [] ys = refl
delivered-append (delivers f ∷ xs) ys = ap (λ (r : List Frame). f ∷ r) (delivered-append xs ys)
delivered-append (posts bytes ∷ xs) ys = delivered-append xs ys
delivered-append (writes bytes ∷ xs) ys = delivered-append xs ys
delivered-append (reads ∷ xs) ys = delivered-append xs ys
delivered-append (undefined ∷ xs) ys = delivered-append xs ys

delivered-deliver_all :
    (fs : List Frame) (es : List Effect) → delivered (deliver_all fs ++ es) ≡ fs ++ delivered es
delivered-deliver_all [] es = refl
delivered-deliver_all (f ∷ fs) es = ap (λ (r : List Frame). f ∷ r) (delivered-deliver_all fs es)

requests-append : (xs ys : List Frame) → requests (xs ++ ys) ≡ requests xs ++ requests ys
requests-append [] ys = refl
requests-append (x ∷ xs) ys = elim (Bool-cases (is_request x.type)) [
  | inl e ↦ rw e (ap (λ (r : List Frame). x ∷ r) (requests-append xs ys))
  | inr e ↦ rw e (requests-append xs ys)
]

read_all-delivered :
    (s : IpcSession) (chunks : List (List ℕ))
    → (receive_all s.rxbuf chunks).broken ≡ false
    → delivered (read_all s chunks).1 ≡ requests (receive_all s.rxbuf chunks).frames
unfolding receive_all on_read
read_all-delivered s [] w = refl
read_all-delivered s (chunk ∷ chunks) w =
    let r = receive s.rxbuf chunk in
    let s' = record s { rxbuf = r.rxbuf } in
    let later = receive_all r.rxbuf chunks in
    elim (Bool-cases r.broken) [
      | inl e ↦ let w' : r.broken ≡ false = rw (e, receive_all) at w in cc
      | inr e ↦
          let w' : later.broken ≡ false = rw (e, receive_all) at w in
          let whole : receive_all s.rxbuf (chunk ∷ chunks)
              ≡ record later { frames = r.frames ++ later.frames } =
            rw (e, receive_all) refl in
          rw
            (
              whole,
              e,
              append_assoc (deliver_all (requests r.frames)) (reads ∷ []) (read_all s' chunks).1,
              delivered-deliver_all (requests r.frames) (reads ∷ (read_all s' chunks).1),
              requests-append r.frames later.frames,
              read_all-delivered s' chunks w',
            )
            refl
    ]

pub read_all-requests :
    (fs : List Frame) (chunks : List (List ℕ))
    → All IsWellFormed fs
    → flatten chunks ≡ encode_all fs
    → delivered (read_all new_session chunks).1 ≡ requests fs
read_all-requests fs chunks w e =
    let r = receive_all-encode_all fs chunks w e in
    read_all-delivered new_session chunks (ap (λ (x : Received). x.broken) r)
    ∙ ap (λ (x : Received). requests x.frames) r

-- The frames with the wire codes 10 (Command), 11 (Query) and 13 (PacketSend).
abbrev pub coded_requests : List Frame → List Frame
coded_requests [] = []
coded_requests (f ∷ fs) =
    let code = type_code f.type in
    if code == 10 || code == 11 || code == 13 then f ∷ coded_requests fs else coded_requests fs

type_lem :
    (t : MsgType)
    → IsSendable t
    → is_request t ≡ (type_code t == 10 || type_code t == 11 || type_code t == 13)
unfolding is_request type_code of_code
type_lem hello h = refl
type_lem link_state h = refl
type_lem packet_rx h = refl
type_lem packet_tx h = refl
type_lem error h = refl
type_lem command h = refl
type_lem query h = refl
type_lem query_result h = refl
type_lem packet_send h = refl
type_lem (unnamed n) h = ground (arith, h.1)

requests_lem : (fs : List Frame) → All IsWellFormed fs → requests fs ≡ coded_requests fs
requests_lem [] w = refl
requests_lem (f ∷ fs) w = rw (type_lem f.type w.0.0, requests_lem fs w.1) refl

-- However the bytes of well formed frames arrive at a new session, the daemon's handler is called
-- with the frames among them whose type has the wire code 10 (Command), 11 (Query) or 13
-- (PacketSend), each once, in their order and unaltered; the others are dropped.
pub read_all-encode_all :
    (fs : List Frame) (chunks : List (List ℕ))
    → All IsWellFormed fs
    → flatten chunks ≡ encode_all fs
    → delivered (read_all new_session chunks).1 ≡ coded_requests fs
read_all-encode_all fs chunks w e = read_all-requests fs chunks w e ∙ requests_lem fs w
