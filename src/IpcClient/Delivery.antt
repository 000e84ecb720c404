-- ===== src/IpcClient/Delivery.antt =====
-- ui/src/ipc_client.cpp: what the client hands on of the bytes that it reads.
use exn_gs.Common.{
  ℕ, ◌≡◌, refl, ap, false, List, [], ◌∷◌, ◌++◌, append_assoc, none, Bool-cases, inl, inr,
}
use exn_gs.Protocol.{Frame}
use exn_gs.Protocol.Stream.{receive, receive_all}
use exn_gs.IpcClient.{
  IpcClient, Effect, resolves, connects, reads, waits, undefined, posts, writes, connection_state,
  frame_arrives, Result, on_read, arrive_all,
}

-- Reads that complete without error, one after the other.
abbrev pub read_all : IpcClient → List (List ℕ) → Result
read_all c [] = (c, [])
read_all c (chunk ∷ chunks) =
    let (c', effects) = on_read c none chunk in
    let (c'', more) = read_all c' chunks in (c'', effects ++ more)

-- The frames that are handed on.
abbrev pub arrived : List Effect → List Frame
arrived [] = []
arrived (frame_arrives f ∷ es) = f ∷ arrived es
arrived (resolves ∷ es) = arrived es
arrived (connects ∷ es) = arrived es
arrived (reads ∷ es) = arrived es
arrived (waits ∷ es) = arrived es
arrived (undefined ∷ es) = arrived es
arrived (posts bytes ∷ es) = arrived es
arrived (writes bytes ∷ es) = arrived es
arrived (connection_state connected detail ∷ es) = arrived es

pub arrived-arrive_all :
    (fs : List Frame) (es : List Effect) → arrived (arrive_all fs ++ es) ≡ fs ++ arrived es
arrived-arrive_all [] es = refl
arrived-arrive_all (f ∷ fs) es = ap (λ (r : List Frame). f ∷ r) (arrived-arrive_all fs es)

pub read_all-arrived :
    (c : IpcClient) (chunks : List (List ℕ))
    → (receive_all c.rxbuf chunks).broken ≡ false
    → arrived (read_all c chunks).1 ≡ (receive_all c.rxbuf chunks).frames
unfolding receive_all on_read
read_all-arrived c [] w = refl
read_all-arrived c (chunk ∷ chunks) w =
    let r = receive c.rxbuf chunk in
    let c' = record c { rxbuf = r.rxbuf } in
    let later = receive_all r.rxbuf chunks in
    elim (Bool-cases r.broken) [
      | inl e ↦ let w' : r.broken ≡ false = rw (e, receive_all) at w in cc
      | inr e ↦
          let w' : later.broken ≡ false = rw (e, receive_all) at w in
          let whole : receive_all c.rxbuf (chunk ∷ chunks)
              ≡ record later { frames = r.frames ++ later.frames } =
            rw (e, receive_all) refl in
          rw
            (
              whole,
              e,
              append_assoc (arrive_all r.frames) (reads ∷ []) (read_all c' chunks).1,
              arrived-arrive_all r.frames (reads ∷ (read_all c' chunks).1),
              read_all-arrived c' chunks w',
            )
            refl
    ]
