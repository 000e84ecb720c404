-- ===== src/Gsdctl/Hex.antt =====
-- tools/gsdctl/main.cpp: `decode_hex`.
use exn_gs.Common.{
  ℕ, ap, ◌∙◌, ◌+◌, ◌-◌, ◌*◌, ◌/◌, ◌%◌, ◌<◌, ◌≡◌, ◌≢◌, refl, arith, Bool, true, ◌&&◌, ◌||◌, not,
  List, [], ◌∷◌, Option, none, some, Text, length, leb, ltb, ◌==◌, if◌then◌else◌, All,
}

-- `std::isxdigit`
unfoldable pub is_xdigit : ℕ → Bool
is_xdigit c = leb 48 c && leb c 57 || leb 65 c && leb c 70 || leb 97 c && leb c 102

-- The value of a digit for `std::strtoul` with base 16.
unfoldable pub digit_value : ℕ → ℕ
digit_value c = if leb c 57 then c - 48 else if leb c 70 then c - 55 else c - 87

unfoldable pub all_xdigits : Text → Bool
unfolding is_xdigit
all_xdigits [] = true
all_xdigits (c ∷ cs) = is_xdigit c && all_xdigits cs

-- The bytes of the pairs of digits.
unfoldable pub pairs : Text → List ℕ
unfolding digit_value
pairs [] = []
pairs (c ∷ []) = []
pairs (c ∷ d ∷ cs) = (digit_value c * 16 + digit_value d) % 256 ∷ pairs cs

-- `none` is the answer false.
unfoldable pub decode_hex : Text → Option (List ℕ)
unfolding all_xdigits pairs
decode_hex hex =
    if length hex == 0 || not (length hex % 2 == 0)
    then none
    else if not (all_xdigits hex)
    then none
    else some (pairs hex)

-- A digit in either case.
abbrev digit_of : Bool → ℕ → ℕ
digit_of upper_case v = if ltb v 10 then 48 + v else if upper_case then 55 + v else 87 + v

abbrev encode_hex : Bool → List ℕ → Text
encode_hex upper_case [] = []
encode_hex upper_case (b ∷ bs) =
    digit_of upper_case (b / 16) ∷ digit_of upper_case (b % 16) ∷ encode_hex upper_case bs

digit_of_lem :
    (u : Bool) (v : ℕ)
    → v < 16
    → (is_xdigit (digit_of u v) ≡ true) × (digit_value (digit_of u v) ≡ v)
unfolding is_xdigit digit_value
digit_of_lem u v h = ground arith

encode_hex_lem :
    (u : Bool) (bs : List ℕ)
    → All (λ b. b < 256) bs
    → (all_xdigits (encode_hex u bs) ≡ true)
      × (pairs (encode_hex u bs) ≡ bs)
      × (length (encode_hex u bs) ≡ 2 * length bs)
unfolding all_xdigits pairs
encode_hex_lem u [] h = (refl, refl, refl)
encode_hex_lem u (b ∷ bs) h =
    let hi = digit_of_lem u (b / 16) (omega (arith, h.0)) in
    let lo = digit_of_lem u (b % 16) (omega arith) in
    let ih = encode_hex_lem u bs h.1 in
    let whole : (b / 16 * 16 + b % 16) % 256 ≡ b = omega (arith, h.0) in
    (rw (hi.0, lo.0) ih.0, rw (hi.1, lo.1, whole, ih.1) refl, omega (arith, ih.2))

decode_hex-pairs :
    (s : Text)
    → length s ≢ 0
    → length s % 2 ≡ 0
    → all_xdigits s ≡ true
    → decode_hex s ≡ some (pairs s)
unfolding decode_hex
decode_hex-pairs s n even digits = ground arith

-- Every packet of at least one byte is read back from its hexadecimal digits, in capitals or not.
decode_hex-encode_hex :
    (u : Bool) (bs : List ℕ)
    → All (λ b. b < 256) bs
    → bs ≢ []
    → decode_hex (encode_hex u bs) ≡ some bs
decode_hex-encode_hex u [] h n = absurd (n refl)
decode_hex-encode_hex u (b ∷ bs) h n =
    let e = encode_hex_lem u (b ∷ bs) h in
    decode_hex-pairs (encode_hex u (b ∷ bs)) (omega (arith, e.2)) (omega (arith, e.2)) e.0
    ∙ ap some e.1
