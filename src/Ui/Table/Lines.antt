-- ===== src/Ui/Table/Lines.antt =====
-- ui/src/ui_app.cpp: the packet table as `preformatted_block` shows it.
use mathlib.Core.List.{reverse, reverse_aux}
use exn_gs.Common.{
  ℕ, zero, suc, ◌+◌, ◌^◌, ◌<◌, ◌≡◌, refl, arith, ap, ◌∙◌, List, [], ◌∷◌, ◌++◌, Text, All,
  append_assoc, map, take,
}
use exn_gs.Protocol.Strings.{IsMeta}
use exn_gs.Ui.{PacketRow}
use exn_gs.Ui.Table.{
  LocalTime, pad_right, trunc_ellipsis, cols, base_width, desc_width, cells, values, table_line,
  table_lines, render_packet_table_text, split_lines, preformatted_block,
}
use exn_gs.Ui.Table.Columns.{
  IsInLine, IsLocalTime, length-pad_right, length-fmt_time_local, fmt_time_local-IsInLine,
  pad_right-IsInLine, trunc_ellipsis-IsInLine,
}
use exn_gs.Ui.Table.Cells.{
  IsTableLine, append-IsTableLine, Fits, cells-IsTableLine, number_fits, heading,
  heading-IsTableLine, rule, rule-IsTableLine,
}

-- The fields are within the ranges of their C++ types, and the description is one line.
pub record IsShowable (row : PacketRow) : Type 0 where
  pub meta : IsMeta row.m
  pub ver : row.m.ver < 2 ^ 8
  pub typ : row.m.typ < 2 ^ 8
  pub shf : row.m.shf < 2 ^ 8
  pub seqf : row.m.seqf < 2 ^ 8
  pub svc : row.m.svc < 2 ^ 8
  pub ssvc : row.m.ssvc < 2 ^ 8
  pub desc : All IsInLine row.desc

split_lines-append :
    (line rest : Text)
    → All IsInLine line
    → split_lines (line ++ b'\n' ∷ rest) ≡ line ∷ split_lines rest
split_lines-append [] rest h = refl
split_lines-append (c ∷ line) rest h = rw (h.0, split_lines-append line rest h.1) refl

All-reverse_aux :
    {A : Type 0} (P : A → Type 0) (xs ys : List A) → All P xs → All P ys → All P (reverse_aux xs ys)
All-reverse_aux P [] ys h k = k
All-reverse_aux P (x ∷ xs) ys h k = All-reverse_aux P xs (x ∷ ys) h.1 (h.0, k)

-- The lines of the rows.
abbrev pub shown_lines : (ℕ → LocalTime) → ℕ → ℕ → List PacketRow → List Text
shown_lines local_time max_rows desc_w rows =
    map (table_line local_time desc_w) (take max_rows rows)

module _ (local_time : ℕ → LocalTime) (documented : (s : ℕ) → IsLocalTime (local_time s)) where
  values-Fits : (row : PacketRow) → IsShowable row → Fits cols (values local_time row)
  values-Fits row s = (
    (
      fmt_time_local-IsInLine local_time documented row.m.ts_ns,
      omega (arith, length-fmt_time_local local_time documented row.m.ts_ns),
    ),
    (
      number_fits 2 row.m.ver 3 (omega (arith, s.ver)) (omega arith),
      (
        number_fits 2 row.m.typ 3 (omega (arith, s.typ)) (omega arith),
        (
          number_fits 2 row.m.shf 3 (omega (arith, s.shf)) (omega arith),
          (
            number_fits 4 row.m.apid 5 (omega (arith, s.meta.apid)) (omega arith),
            (
              number_fits 2 row.m.seqf 4 (omega (arith, s.seqf)) (omega arith),
              (
                number_fits 4 row.m.seq 5 (omega (arith, s.meta.seq)) (omega arith),
                (
                  number_fits 4 row.m.len 5 (omega (arith, s.meta.len)) (omega arith),
                  (
                    number_fits 2 row.m.svc 3 (omega (arith, s.svc)) (omega arith),
                    (number_fits 2 row.m.ssvc 4 (omega (arith, s.ssvc)) (omega arith), tt),
                  ),
                ),
              ),
            ),
          ),
        ),
      ),
    ),
  )

  table_line-IsTableLine :
      (desc_w : ℕ) (row : PacketRow)
      → IsShowable row
      → IsTableLine (base_width cols + desc_w) (table_line local_time desc_w row)
  table_line-IsTableLine desc_w row s =
      append-IsTableLine (base_width cols) desc_w (cells cols (values local_time row))
        (pad_right (trunc_ellipsis row.desc desc_w) desc_w)
        (cells-IsTableLine cols (values local_time row) (values-Fits row s))
        (
          pad_right-IsInLine (trunc_ellipsis row.desc desc_w) desc_w
              (trunc_ellipsis-IsInLine row.desc desc_w s.desc),
          length-pad_right (trunc_ellipsis row.desc desc_w) desc_w,
        )

  shown_lines-IsTableLine :
      (max_rows desc_w : ℕ) (rows : List PacketRow)
      → All IsShowable rows
      → All (IsTableLine (base_width cols + desc_w)) (shown_lines local_time max_rows desc_w rows)
  shown_lines-IsTableLine zero desc_w rows s = tt
  shown_lines-IsTableLine (suc max_rows) desc_w [] s = tt
  shown_lines-IsTableLine (suc max_rows) desc_w (row ∷ rows) s =
      (table_line-IsTableLine desc_w row s.0, shown_lines-IsTableLine max_rows desc_w rows s.1)

  split_lines-table_lines :
      (max_rows desc_w : ℕ) (rows : List PacketRow)
      → All IsShowable rows
      → split_lines (table_lines local_time max_rows desc_w rows)
        ≡ shown_lines local_time max_rows desc_w rows ++ [] ∷ []
  split_lines-table_lines zero desc_w rows s = refl
  split_lines-table_lines (suc max_rows) desc_w [] s = refl
  split_lines-table_lines (suc max_rows) desc_w (row ∷ rows) s =
      split_lines-append (table_line local_time desc_w row)
        (table_lines local_time max_rows desc_w rows) (table_line-IsTableLine desc_w row s.0).0
      ∙ ap (λ (ls : List Text). table_line local_time desc_w row ∷ ls)
          (split_lines-table_lines max_rows desc_w rows s.1)

  -- The lines of the table's text: a heading, a rule and the last `max_rows` rows, newest first, each in a
  -- line of its own and all of 53 + `desc_width term_w` bytes, and then an empty line. Bytes are counted,
  -- not columns: a description that is cut, or has other characters than ASCII, takes fewer columns.
  -- (`localtime_r` does what it documents, the rows hold values of their C++ types, and no description
  -- has a line break.)
  pub preformatted_block-render :
      (rows : List PacketRow) (max_rows term_w : ℕ)
      → All IsShowable rows
      → let desc_w = desc_width term_w in
        let lines =
          heading desc_w ∷ rule desc_w ∷ shown_lines local_time max_rows desc_w (reverse rows) in
        (preformatted_block (render_packet_table_text local_time rows max_rows term_w)
          ≡ lines ++ [] ∷ [])
        × All (IsTableLine (53 + desc_w)) lines
  unfolding preformatted_block render_packet_table_text
  preformatted_block-render rows max_rows term_w s =
      let newest_first = All-reverse_aux IsShowable rows [] s tt in
      let desc_w = desc_width term_w in
      let body = table_lines local_time max_rows desc_w (reverse rows) in
      let first =
        split_lines-append (heading desc_w) (rule desc_w ++ b'\n' ∷ body)
          (heading-IsTableLine desc_w).0 in
      let second = split_lines-append (rule desc_w) body (rule-IsTableLine desc_w).0 in
      (
        ap split_lines (append_assoc (heading desc_w) (b'\n' ∷ rule desc_w) (b'\n' ∷ body))
            ∙ first
            ∙ ap (λ (ls : List Text). heading desc_w ∷ ls)
                (second
                  ∙ ap (λ (ls : List Text). rule desc_w ∷ ls)
                      (split_lines-table_lines max_rows desc_w (reverse rows) newest_first)),
        (
          heading-IsTableLine desc_w,
          (
            rule-IsTableLine desc_w,
            shown_lines-IsTableLine max_rows desc_w (reverse rows) newest_first,
          ),
        ),
      )
