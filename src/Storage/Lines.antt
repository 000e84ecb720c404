-- ===== src/Storage/Lines.antt =====
-- The log is read back line by line, and the summary string by string.
use exn_gs.Common.{
  ℕ, ◌+◌, ◌≡◌, refl, arith, Bool, true, false, not, ◌&&◌, ◌||◌, ltb, List, [], ◌∷◌, ◌++◌, Option,
  none, some, Text, to_string, length, ◌==◌, if◌then◌else◌, append_assoc, All, IsDigit,
  to_string-IsDigit,
}
use exn_gs.Types.{Direction, tc, tm, PacketRecord}
use exn_gs.Storage.{escape_char, escape, dir_text, json_line, store}

-- The two-character escapes of JSON.
abbrev of_escape : ℕ → Option ℕ
of_escape c =
    if c == 34
    then some 34
    else if c == 92
    then some 92
    else if c == b'/'
    then some b'/'
    else if c == b'b'
    then some 8
    else if c == b'f'
    then some 12
    else if c == b'n'
    then some 10
    else if c == b'r'
    then some 13
    else if c == b't'
    then some 9
    else none

abbrev with_char : Option ℕ → Option (Text × Text) → Option (Text × Text)
with_char none r = none
with_char (some c) none = none
with_char (some c) (some (text, rest)) = some (c ∷ text, rest)

-- A strict reader of JSON strings (RFC 8259, section 7) on bytes, behind the opening quote: the text, and
-- what follows the closing quote. A control character is refused, and so is a backslash that begins no
-- escape of two characters; those of six, `\u` with four digits, are refused too, since the log has
-- none. The flag says that a backslash came before.
abbrev pub read_string : Bool → Text → Option (Text × Text)
read_string escaped [] = none
read_string true (c ∷ cs) = with_char (of_escape c) (read_string false cs)
read_string false (c ∷ cs) =
    let plain = read_string false cs in
    let after_backslash = read_string true cs in
    if c == 34
    then some ([], cs)
    else if c == 92
    then after_backslash
    else if ltb c 32
    then none
    else with_char (some c) plain

-- A character that `escape` makes fit for JSON: none of the control characters but tab, line feed and
-- carriage return.
abbrev fits_json : ℕ → Bool
fits_json c = not (ltb c 32) || c == 9 || c == 10 || c == 13

abbrev pub all_fit_json : Text → Bool
all_fit_json [] = true
all_fit_json (c ∷ cs) = fits_json c && all_fit_json cs

read_string-escape_char :
    (c : ℕ) (cs : Text)
    → read_string false (escape_char c ++ cs)
      ≡ (if fits_json c then with_char (some c) (read_string false cs) else none)
unfolding escape_char
read_string-escape_char c cs = ground arith

-- A strict JSON reader gives back the summary of a packet from its string in the log, and the string
-- ends where it was meant to, exactly when the summary has no control character but tab, line feed and
-- carriage return; any other, which `escape` writes as it is, makes the string no JSON.
pub read_string-escape :
    (s rest : Text)
    → read_string false (escape s ++ 34 ∷ rest) ≡ (if all_fit_json s then some (s, rest) else none)
unfolding escape
read_string-escape [] rest = refl
read_string-escape (c ∷ s) rest =
    let head = read_string-escape_char c (escape s ++ 34 ∷ rest) in
    let tail = read_string-escape s rest in
    rw (append_assoc (escape_char c) (escape s) (34 ∷ rest), head, tail) (ground arith)

abbrev pub newlines : Text → ℕ
newlines [] = 0
newlines (c ∷ cs) = (if c == 10 then 1 else 0) + newlines cs

newlines-append : (xs ys : Text) → newlines (xs ++ ys) ≡ newlines xs + newlines ys
newlines-append [] ys = omega arith
newlines-append (x ∷ xs) ys = omega (arith, newlines-append xs ys)

newlines-escape_char : (c : ℕ) → newlines (escape_char c) ≡ 0
unfolding escape_char
newlines-escape_char c = ground arith

newlines-escape : (s : Text) → newlines (escape s) ≡ 0
unfolding escape
newlines-escape [] = refl
newlines-escape (c ∷ s) =
    omega
      (arith, newlines-append (escape_char c) (escape s), newlines-escape_char c, newlines-escape s)

newlines-digits : (s : Text) → All IsDigit s → newlines s ≡ 0
newlines-digits [] h = refl
newlines-digits (c ∷ s) h = ground (arith, newlines-digits s h.1, h.0)

newlines-to_string : (n : ℕ) → newlines (to_string n) ≡ 0
newlines-to_string n = newlines-digits (to_string n) (to_string-IsDigit n)

newlines-dir_text : (d : Direction) → newlines (dir_text d) ≡ 0
newlines-dir_text tc = refl
newlines-dir_text tm = refl

newlines-json_line : (rec : PacketRecord) → newlines (json_line rec) ≡ 1
unfolding json_line
newlines-json_line rec =
    simp (newlines-append, newlines-to_string, newlines-escape, newlines-dir_text) refl

abbrev pub store_all : Text → List PacketRecord → Text
store_all file [] = file
store_all file (rec ∷ recs) = store_all (store true file rec) recs

-- The log of a stream that stays good has one line for each stored packet, whatever its summary holds.
pub newlines-store_all :
    (file : Text) (recs : List PacketRecord)
    → newlines (store_all file recs) ≡ newlines file + length recs
unfolding store
newlines-store_all file [] = omega arith
newlines-store_all file (rec ∷ recs) = omega (
  arith,
  newlines-store_all (file ++ json_line rec) recs,
  newlines-append file (json_line rec),
  newlines-json_line rec,
)
