-- ===== src/Ui/Table/Columns.antt =====
-- ui/src/ui_app.cpp: the widths of the columns.
use exn_gs.Common.{
  length-replicate, ℕ, zero, suc, ◌-◌, ◌/◌, ◌≤◌, ◌<◌, ◌≡◌, refl, arith, ap, [], ◌∷◌, ◌++◌, Text,
  length, length-append, length-take, take, replicate, All, All-append, leb, ◌==◌, Bool-cases, inl,
  inr, false, to_string, to_string-IsDigit, IsDigit, length-to_string, ◌∙◌, true,
}
use exn_gs.Ui.Table.{
  LocalTime, set_width, fmt_time_local, pad_left, pad_right, trunc_ellipsis, ellipsis,
}

-- A character that ends no line.
abbrev pub IsInLine : ℕ → Type 0
IsInLine c = (c == b'\n') ≡ false

pub replicate-IsInLine : (n c : ℕ) → IsInLine c → All IsInLine (replicate n c)
replicate-IsInLine zero c h = tt
replicate-IsInLine (suc n) c h = (h, replicate-IsInLine n c h)

take-IsInLine : (n : ℕ) (s : Text) → All IsInLine s → All IsInLine (take n s)
take-IsInLine zero s h = tt
take-IsInLine (suc n) [] h = tt
take-IsInLine (suc n) (c ∷ cs) h = (h.0, take-IsInLine n cs h.1)

digits-IsInLine : (s : Text) → All IsDigit s → All IsInLine s
digits-IsInLine [] h = tt
digits-IsInLine (c ∷ cs) h = (ground arith, digits-IsInLine cs h.1)

pub length-pad_left : (s : Text) (w : ℕ) → length s ≤ w → length (pad_left s w) ≡ w
unfolding pad_left
length-pad_left s w h = ground (
  arith,
  length-append (replicate (w - length s) b' ') s,
  length-replicate {A = ℕ} (w - length s) b' ',
)

-- A text that is too long is cut.
pub length-pad_right : (s : Text) (w : ℕ) → length (pad_right s w) ≡ w
unfolding pad_right
length-pad_right s w = ground (
  arith,
  length-append s (replicate (w - length s) b' '),
  length-replicate {A = ℕ} (w - length s) b' ',
  length-take w s,
)

pub pad_left-IsInLine : (s : Text) (w : ℕ) → All IsInLine s → All IsInLine (pad_left s w)
unfolding pad_left
pad_left-IsInLine s w h = elim (Bool-cases (leb w (length s))) [
  | inl e ↦ rw e h
  | inr e ↦ rw e (
      All-append IsInLine (replicate (w - length s) b' ') s
        (replicate-IsInLine (w - length s) b' ' refl) h)
]

pub pad_right-IsInLine : (s : Text) (w : ℕ) → All IsInLine s → All IsInLine (pad_right s w)
unfolding pad_right
pad_right-IsInLine s w h = elim (Bool-cases (leb w (length s))) [
  | inl e ↦ rw e (take-IsInLine w s h)
  | inr e ↦ rw e (
      All-append IsInLine s (replicate (w - length s) b' ') h
        (replicate-IsInLine (w - length s) b' ' refl))
]

pub trunc_ellipsis-IsInLine :
    (s : Text) (w : ℕ) → All IsInLine s → All IsInLine (trunc_ellipsis s w)
unfolding trunc_ellipsis
trunc_ellipsis-IsInLine s w h = elim (Bool-cases (w == 0)) [
  | inl e ↦ rw e tt
  | inr e ↦ elim (Bool-cases (leb (length s) w)) [
    | inl e' ↦ rw (e, e') h
    | inr e' ↦ elim (Bool-cases (leb w 1)) [
      | inl e'' ↦ rw (e, e', e'') (take-IsInLine 1 s h)
      | inr e'' ↦
          rw (e, e', e'')
            (All-append IsInLine (take (w - 1) s) ellipsis (take-IsInLine (w - 1) s h)
              (refl, (refl, (refl, tt))))
    ]
  ]
]

take-append_one : (xs ys : Text) (y : ℕ) → take (suc (length xs)) (xs ++ y ∷ ys) ≡ xs ++ y ∷ []
take-append_one [] ys y = refl
take-append_one (x ∷ xs) ys y = ap (λ (t : Text). x ∷ t) (take-append_one xs ys y)

-- A description that is too long for its column of two bytes or more ends in the byte 0xE2 alone: the
-- other two bytes of "…" are cut off.
pub pad_right-trunc_ellipsis :
    (s : Text) (w : ℕ)
    → 2 ≤ w
    → w < length s
    → pad_right (trunc_ellipsis s w) w ≡ take (w - 1) s ++ 226 ∷ []
unfolding pad_right trunc_ellipsis
pad_right-trunc_ellipsis s w h k =
    let front = take (w - 1) s in
    let some_width : (w == 0) ≡ false = ground arith in
    let long : leb (length s) w ≡ false = ground arith in
    let more : leb w 1 ≡ false = ground arith in
    let size : length front ≡ w - 1 = omega (arith, length-take (w - 1) s) in
    let over : leb w (length (front ++ ellipsis)) ≡ true =
      ground (arith, length-append front ellipsis) in
    let ends : w ≡ suc (length front) = omega arith in
    rw (some_width, long, more, over)
      (ap (λ (n : ℕ). take n (front ++ ellipsis)) ends ∙ take-append_one front (128 ∷ 166 ∷ []) 226)

length-set_width : (c w : ℕ) (s : Text) → length s ≤ w → length (set_width c w s) ≡ w
unfolding set_width
length-set_width c w s h =
    omega (arith, length-append (replicate (w - length s) c) s, length-replicate (w - length s) c)

set_width-IsInLine : (w : ℕ) (s : Text) → All IsInLine s → All IsInLine (set_width b'0' w s)
unfolding set_width
set_width-IsInLine w s h =
    All-append IsInLine (replicate (w - length s) b'0') s
      (replicate-IsInLine (w - length s) b'0' refl) h

pub number-IsInLine : (n : ℕ) → All IsInLine (to_string n)
number-IsInLine n = digits-IsInLine (to_string n) (to_string-IsDigit n)

-- What `localtime_r` documents: 61 seconds are a leap second.
pub record IsLocalTime (t : LocalTime) : Type 0 where
  pub hour : t.hour < 24
  pub min : t.min < 60
  pub sec : t.sec ≤ 61

abbrev colon : Text
colon = b':' ∷ []

module _ (local_time : ℕ → LocalTime) (documented : (s : ℕ) → IsLocalTime (local_time s)) where
  pub length-fmt_time_local : (ts_ns : ℕ) → length (fmt_time_local local_time ts_ns) ≡ 8
  unfolding fmt_time_local
  length-fmt_time_local ts_ns =
      let tm = local_time (ts_ns / 1000000000) in
      let h = set_width b'0' 2 (to_string tm.hour) in
      let m = set_width b'0' 2 (to_string tm.min) in
      let s = set_width b'0' 2 (to_string tm.sec) in
      let ok = documented (ts_ns / 1000000000) in
      let two : (n : ℕ) → n < 100 → length (set_width b'0' 2 (to_string n)) ≡ 2 =
        λ n small. length-set_width b'0' 2 (to_string n) (length-to_string 1 n small) in
      omega (
        arith,
        length-append (h ++ colon ++ m ++ colon) s,
        length-append (h ++ colon ++ m) colon,
        length-append (h ++ colon) m,
        length-append h colon,
        two tm.hour (omega (arith, ok.hour)),
        two tm.min (omega (arith, ok.min)),
        two tm.sec (omega (arith, ok.sec)),
      )

  pub fmt_time_local-IsInLine : (ts_ns : ℕ) → All IsInLine (fmt_time_local local_time ts_ns)
  unfolding fmt_time_local
  fmt_time_local-IsInLine ts_ns =
      let tm = local_time (ts_ns / 1000000000) in
      let part : (n : ℕ) → All IsInLine (set_width b'0' 2 (to_string n)) =
        λ n. set_width-IsInLine 2 (to_string n) (number-IsInLine n) in
      let h = set_width b'0' 2 (to_string tm.hour) in
      let m = set_width b'0' 2 (to_string tm.min) in
      let s = set_width b'0' 2 (to_string tm.sec) in
      let hours = All-append IsInLine h colon (part tm.hour) (refl, tt) in
      let minutes = All-append IsInLine (h ++ colon) m hours (part tm.min) in
      let rest = All-append IsInLine (h ++ colon ++ m) colon minutes (refl, tt) in
      All-append IsInLine (h ++ colon ++ m ++ colon) s rest (part tm.sec)
