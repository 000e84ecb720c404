-- ===== src/Protocol/Frames.antt =====
-- What `try_decode` gives back of the frames that `encode` writes, and where it goes wrong.
use exn_gs.Common.{
  ℕ, suc, ◌+◌, ◌%◌, ◌^◌, ◌≤◌, ◌<◌, ◌≡◌, ◌≢◌, refl, ap, ◌∙◌, arith, List, [], ◌∷◌, ◌++◌, length,
  length-append, length-take, length-drop, take, drop, take-append_le, drop-append_le,
  take-append_all, drop-append_all,
}
use exn_gs.Protocol.Bytes.{append_u16, append_u32, read_u16, read_u32}
use exn_gs.Protocol.Words.{
  read_u16-append_u16, read_u32-append_u32, read_u16-append, read_u32-append,
}
use exn_gs.Protocol.{
  MsgType, Frame, more, got, fault, type_code, of_code, encode, try_decode, add_u32,
}

-- The type is one that survives the uint16_t on the wire.
abbrev pub IsSendable : MsgType → Type 0
IsSendable t = (type_code t < 2 ^ 16) × (of_code (type_code t) ≡ t)

pub length-encode : (f : Frame) → length (encode f) ≡ 6 + length f.payload
unfolding encode append_u16 append_u32
length-encode f = omega arith

-- A buffer with six bytes of header, whose length field counts the type and `body`.
try_decode_split :
    (a b c d t u : ℕ) (body rest : List ℕ)
    → let buffer = a ∷ b ∷ c ∷ d ∷ t ∷ u ∷ body ++ rest in
      read_u32 buffer ≡ 2 + length body
      → 6 + length body < 2 ^ 32
      → try_decode buffer
        ≡ got (record { type = of_code (read_u16 (t ∷ u ∷ body ++ rest)); payload = body }) rest
unfolding try_decode
try_decode_split a b c d t u body rest e fits =
    let end : 4 + (2 + length body) ≡ suc (suc (suc (suc (suc (suc (length body)))))) =
      omega arith in
    rw e (
      rw end (
        ground (
          arith,
          length-append body rest,
          take-append_all (length body) body rest refl,
          drop-append_all (length body) body rest refl,
        )))

read_u32-encode : (f : Frame) → read_u32 (encode f) ≡ add_u32 2 (length f.payload % 2 ^ 32)
unfolding encode append_u16 append_u32
read_u32-encode f =
    read_u32-append_u32 (add_u32 2 (length f.payload % 2 ^ 32))
      (append_u16 [] (type_code f.type) ++ f.payload)
    ∙ omega arith

-- A complete frame at the front of the buffer is taken off it whole, with its type and payload,
-- and the bytes behind it stay: for a type that the 16-bit field holds, and a payload of less than
-- 2 ^ 32 - 6 bytes.
pub try_decode-encode :
    (f : Frame) (rest : List ℕ)
    → IsSendable f.type
    → 6 + length f.payload < 2 ^ 32
    → try_decode (encode f ++ rest) ≡ got f rest
unfolding encode append_u16 append_u32
try_decode-encode f rest (small, same) fits =
    let code = type_code f.type in
    let len = add_u32 2 (length f.payload % 2 ^ 32) in
    let back : of_code (read_u16 (append_u16 [] code ++ f.payload ++ rest)) ≡ f.type =
      ap of_code (read_u16-append_u16 code (f.payload ++ rest) ∙ omega arith) ∙ same in
    try_decode_split _ _ _ _ _ _ f.payload rest
      (read_u32-append_u32 len (append_u16 [] code ++ f.payload ++ rest) ∙ omega arith) fits
    ∙ ap (λ (t : MsgType). got (record { type = t; payload = f.payload }) rest) back

-- A frame that has not arrived whole is left in the buffer: `try_decode` answers false on every
-- proper prefix of an encoded frame.
pub try_decode-prefix :
    (f : Frame) (front back : List ℕ)
    → 6 + length f.payload < 2 ^ 32
    → encode f ≡ front ++ back
    → 0 < length back
    → try_decode front ≡ more
unfolding try_decode
try_decode-prefix f front back fits e h = ground (
  arith,
  length-append front back,
  length-encode f,
  ap length e,
  read_u32-append front back,
  ap read_u32 e,
  read_u32-encode f,
)

-- A length field below 2 blocks the stream: whatever arrives behind it, `try_decode` answers false
-- and never takes the field off the buffer.
pub try_decode_blocked :
    (a b c d : ℕ) (later : List ℕ)
    → read_u32 (a ∷ b ∷ c ∷ d ∷ []) < 2
    → try_decode (a ∷ b ∷ c ∷ d ∷ later) ≡ more
unfolding try_decode read_u32
try_decode_blocked a b c d later h = ground arith

-- The four largest length fields pass the size test by wrapping round, and the copy then runs past
-- the end of every buffer that is smaller than 4 GiB.
pub try_decode_overrun :
    (buffer : List ℕ)
    → 4 ≤ length buffer
    → length buffer < 2 ^ 32
    → 2 ^ 32 ≤ 4 + read_u32 buffer
    → read_u32 buffer < 2 ^ 32
    → try_decode buffer ≡ fault
unfolding try_decode
try_decode_overrun buffer h k w u = ground arith

-- The same in the other direction: a length field below 2 ^ 32 - 4 never makes `try_decode` read
-- outside the buffer.
pub try_decode-ne-fault :
    (buffer : List ℕ) → 4 + read_u32 buffer < 2 ^ 32 → try_decode buffer ≢ fault
unfolding try_decode
try_decode-ne-fault buffer h e = ground arith

-- A frame that comes off accounts for all bytes: the payload, six bytes of header and the rest.
pub try_decode_takes :
    (buffer rest : List ℕ) (f : Frame)
    → try_decode buffer ≡ got f rest
    → length buffer ≡ 6 + length f.payload + length rest
unfolding try_decode
try_decode_takes buffer rest f e =
    let len = read_u32 buffer in
    ground (
      arith,
      length-take (4 + len) buffer,
      length-drop 6 (take (4 + len) buffer),
      length-drop (4 + len) buffer,
    )

-- Bytes that arrive behind a frame do not change it.
pub try_decode-append :
    (buffer rest later : List ℕ) (f : Frame)
    → try_decode buffer ≡ got f rest
    → try_decode (buffer ++ later) ≡ got f (rest ++ later)
unfolding try_decode
try_decode-append buffer rest later f e =
    let len = read_u32 buffer in
    ground (
      arith,
      length-append buffer later,
      length-drop 4 buffer,
      read_u32-append buffer later,
      read_u16-append (drop 4 buffer) later,
      drop-append_le 4 buffer later,
      take-append_le (4 + len) buffer later,
      drop-append_le (4 + len) buffer later,
    )
