-- ===== src/Ui/Screen/Width.antt =====
-- ui/src/ui_app.cpp: the two packet tables side by side.
use mathlib.Core.List.{reverse}
use exn_gs.Common.{
  length-replicate, ℕ, zero, suc, ◌+◌, ◌/◌, ◌≤◌, ◌<◌, ◌≡◌, arith, List, [], ◌∷◌, ◌++◌, Text, codes,
  All, replicate, ◌∙◌,
}
use exn_gs.Ui.{UiApp, PacketRow}
use exn_gs.Ui.Table.{LocalTime, table_rows, desc_width, base_width, cols}
use exn_gs.Ui.Table.Columns.{IsLocalTime}
use exn_gs.Ui.Table.Cells.{heading}
use exn_gs.Ui.Table.Lines.{IsShowable, shown_lines, preformatted_block-render}
use exn_gs.Ui.Elements.{text}
use exn_gs.Ui.Screen.{block, packet_panel, table_of, base}
use exn_gs.Ui.Screen.Sizes.{Sizes, IsPrintable}

rule-IsPrintable : (n : ℕ) → All IsPrintable (replicate n b'-')
rule-IsPrintable zero = tt
rule-IsPrintable (suc n) = (omega arith, rule-IsPrintable n)

module _ (sizes : Sizes) where
  open sizes use {
    width, width-text, width-vbox, width-hbox, width-color, width-flex, width-frame, width-border,
  }

  -- A panel is wider than the second of its lines by its border.
  width-packet_panel :
      (title first : Text) (n : ℕ) (lines : List Text)
      → n + 2 ≤ width (packet_panel title (first ∷ replicate n b'-' ∷ lines))
  unfolding packet_panel block
  width-packet_panel title first n lines =
      let line : width (text (replicate n b'-')) ≡ n =
        width-text (replicate n b'-') (rule-IsPrintable n) ∙ length-replicate n b'-' in
      simp (width-vbox, width-color, width-flex, width-frame, width-border, line) (omega arith)

  module _ (local_time : ℕ → LocalTime) (documented : (s : ℕ) → IsLocalTime (local_time s)) where
    width-table :
        (title : Text) (rows : List PacketRow) (u : UiApp) (term_w term_h : ℕ)
        → All IsShowable rows
        → base_width cols + desc_width (term_w / 2) + 2
          ≤ width (packet_panel title (table_of local_time rows u.cmd_mode term_w term_h))
    unfolding table_of
    width-table title rows u term_w term_h s =
        let n = table_rows u.cmd_mode term_h in
        let desc_w = desc_width (term_w / 2) in
        rw ((preformatted_block-render local_time documented rows n (term_w / 2) s).0, table_of)
          (width-packet_panel title (heading desc_w) (base_width cols + desc_w)
            (shown_lines local_time n desc_w (reverse rows) ++ [] ∷ []))

    -- On every terminal of less than 270 columns, the least width of the screen without the help is more
    -- than the terminal has. The elements have the widths that FTXUI documents, `localtime_r` does what it documents, and the
    -- rows hold values of their C++ types and have no line break.
    pub width-base :
        (u : UiApp) (term_w term_h : ℕ)
        → All IsShowable u.tx_rows
        → All IsShowable u.rx_rows
        → term_w < 270
        → term_w < width (base local_time u term_w term_h)
    unfolding base
    width-base u term_w term_h tx rx narrow =
        simp (width-vbox, width-hbox, width-flex)
          (omega (
            arith,
            width-table (codes "Packets TX (GS -> device link)") u.tx_rows u term_w term_h tx,
            width-table (codes "Packets RX (device link -> GS)") u.rx_rows u term_w term_h rx,
          ))
