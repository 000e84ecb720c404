-- ===== src/Ui/Table.antt =====
-- ui/src/ui_app.cpp: the packet table and its lines.
pub mod Columns
pub mod Cells
pub mod Lines
use Prim.Native.Nat.{min, max}
use mathlib.Core.List.{reverse}
use exn_gs.Common.{
  ℕ, zero, suc, ◌+◌, ◌-◌, ◌/◌, ◌%◌, ◌≤◌, Bool, true, false, List, [], ◌∷◌, ◌++◌, Text, codes,
  to_string, length, take, replicate, ltb, leb, ◌==◌, if◌then◌else◌,
}
use exn_gs.Ui.{PacketRow}

-- The fields of `std::tm` that are shown.
pub record LocalTime : Type 0 where
  pub hour : ℕ
  pub min : ℕ
  pub sec : ℕ

-- `std::setw(w)` with `std::setfill(c)`.
unfoldable pub set_width : ℕ → ℕ → Text → Text
set_width c w s = replicate (w - length s) c ++ s

module _ (local_time : ℕ → LocalTime) where
  -- `local_time` is `localtime_r`.
  unfoldable pub fmt_time_local : ℕ → Text
  unfolding set_width
  fmt_time_local ts_ns =
      let tm = local_time (ts_ns / 1000000000) in
      set_width b'0' 2 (to_string tm.hour)
      ++ codes ":"
      ++ set_width b'0' 2 (to_string tm.min)
      ++ codes ":"
      ++ set_width b'0' 2 (to_string tm.sec)

unfoldable pub pad_left : Text → ℕ → Text
pad_left s w = if leb w (length s) then s else replicate (w - length s) b' ' ++ s

unfoldable pub pad_right : Text → ℕ → Text
pad_right s w = if leb w (length s) then take w s else s ++ replicate (w - length s) b' '

-- The bytes of "…" in UTF-8.
abbrev pub ellipsis : Text
ellipsis = 226 ∷ 128 ∷ 166 ∷ []

unfoldable pub trunc_ellipsis : Text → ℕ → Text
trunc_ellipsis s w =
    if w == 0
    then []
    else if leb (length s) w
    then s
    else if leb w 1
    then take 1 s
    else take (w - 1) s ++ ellipsis

pub record Col : Type 0 where
  pub name : Text
  pub w : ℕ
  pub right : Bool

abbrev col : Text → ℕ → Bool → Col
col name w right = record { name = name; w = w; right = right }

abbrev pub cols : List Col
cols =
    col (codes "TS") 8 false
    ∷ col (codes "VER") 3 true
    ∷ col (codes "TYP") 3 true
    ∷ col (codes "SHF") 3 true
    ∷ col (codes "APID") 5 true
    ∷ col (codes "SEQF") 4 true
    ∷ col (codes "SEQ") 5 true
    ∷ col (codes "LEN") 5 true
    ∷ col (codes "SVC") 3 true
    ∷ col (codes "SSV") 4 true
    ∷ []

abbrev pub base_width : List Col → ℕ
base_width [] = 0
base_width (c ∷ cs) = c.w + 1 + base_width cs

abbrev pub desc_width : ℕ → ℕ
desc_width term_w = min (max 10 (term_w - base_width cols - 1)) 80

abbrev pub header_cells : List Col → Text
header_cells [] = []
header_cells (c ∷ cs) = pad_right c.name c.w ++ b' ' ∷ header_cells cs

-- The values in their columns.
abbrev pub cells : List Col → List Text → Text
cells [] vals = []
cells (c ∷ cs) [] = []
cells (c ∷ cs) (v ∷ vals) =
    (if c.right then pad_left v c.w else pad_right v c.w) ++ b' ' ∷ cells cs vals

module _ (local_time : ℕ → LocalTime) where
  abbrev pub values : PacketRow → List Text
  values row =
      fmt_time_local local_time row.m.ts_ns
      ∷ to_string row.m.ver
      ∷ to_string row.m.typ
      ∷ to_string row.m.shf
      ∷ to_string row.m.apid
      ∷ to_string row.m.seqf
      ∷ to_string row.m.seq
      ∷ to_string row.m.len
      ∷ to_string row.m.svc
      ∷ to_string row.m.ssvc
      ∷ []

  abbrev pub table_line : ℕ → PacketRow → Text
  table_line desc_w row =
      cells cols (values row) ++ pad_right (trunc_ellipsis row.desc desc_w) desc_w

  -- From the last row back.
  abbrev pub table_lines : ℕ → ℕ → List PacketRow → Text
  table_lines zero desc_w rows = []
  table_lines (suc max_rows) desc_w [] = []
  table_lines (suc max_rows) desc_w (row ∷ rows) =
      table_line desc_w row ++ b'\n' ∷ table_lines max_rows desc_w rows

  unfoldable pub render_packet_table_text : List PacketRow → ℕ → ℕ → Text
  render_packet_table_text rows max_rows term_w =
      let desc_w = desc_width term_w in
      header_cells cols
      ++ pad_right (codes "DESC") desc_w
      ++ b'\n' ∷ replicate (base_width cols + desc_w) b'-'
      ++ b'\n' ∷ table_lines max_rows desc_w (reverse rows)

abbrev pub cons_first : ℕ → List Text → List Text
cons_first c [] = (c ∷ []) ∷ []
cons_first c (line ∷ lines) = (c ∷ line) ∷ lines

abbrev pub split_lines : Text → List Text
split_lines [] = [] ∷ []
split_lines (c ∷ cs) =
    let rest = split_lines cs in if c == b'\n' then [] ∷ rest else cons_first c rest

-- The lines that `preformatted_block` shows, one below the other.
unfoldable pub preformatted_block : Text → List Text
preformatted_block s = split_lines s

-- `table_rows` for a terminal of that height.
unfoldable pub table_rows : Bool → ℕ → ℕ
table_rows cmd_mode term_h =
    let overhead = if cmd_mode then 15 else 11 in max 1 (max 6 (term_h - overhead) - 3)
