-- ===== src/Ui/Screen/Height.antt =====
-- ui/src/ui_app.cpp: the screen's height, with and without the help.
use Prim.Native.Nat.{max}
use mathlib.Core.List.{reverse}
use exn_gs.Common.{
  ℕ, ◌+◌, ◌/◌, ◌≤◌, ◌≡◌, refl, ap, arith, Bool, true, false, List, [], ◌∷◌, ◌++◌, codes, Text, All,
  map, take, length, length-map, length-append, length-take, if◌then◌else◌,
}
use exn_gs.Ui.{UiApp, PacketRow}
use exn_gs.Ui.Table.{LocalTime, table_rows, desc_width, table_line, ellipsis}
use exn_gs.Ui.Table.Columns.{IsLocalTime, IsInLine}
use exn_gs.Ui.Table.Lines.{IsShowable, shown_lines, preformatted_block-render}
use exn_gs.Ui.Elements.{Element, text}
use exn_gs.Ui.Screen.{
  top, services_panel, block, packet_panel, notice_bar, cmd_bar, table_of, base, help, under_help,
  screen,
}
use exn_gs.Ui.Screen.Sizes.{Sizes, total}

module _ (sizes : Sizes) where
  open sizes use {
    height, height-text, height-vbox, height-hbox, height-separator, height-filler, height-bold,
    height-color, height-flex, height-frame, height-border, height-input, height-dbox,
    height-clear_under, height-center, height-bgcolor,
  }

  height-top : (daemon device : Text) → height (top daemon device) ≡ 2
  unfolding top
  height-top daemon device =
      simp (height-text, height-vbox, height-hbox, height-filler, height-bold, height-color) refl

  height-services_panel : (hk_enabled : Bool) → height (services_panel hk_enabled) ≡ 1
  unfolding services_panel
  height-services_panel hk_enabled = simp (height-text, height-hbox, height-bold, height-color) refl

  height-notice_bar : (notice : Text) → height (notice_bar notice) ≡ 1
  unfolding notice_bar
  height-notice_bar [] = simp (height-text, height-color) refl
  height-notice_bar (c ∷ cs) = simp (height-text, height-color) refl

  abbrev cmd_height : Bool → ℕ
  cmd_height cmd_mode = if cmd_mode then 4 else 1

  height-cmd_bar :
      (cmd_mode : Bool) (cmd_input : Text)
      → All IsInLine cmd_input
      → height (cmd_bar cmd_mode cmd_input) ≡ cmd_height cmd_mode
  unfolding cmd_bar
  height-cmd_bar true cmd_input line =
      let prompt = height-input cmd_input (codes "type command" ++ ellipsis) line (
        refl,
        (
          refl,
          (
            refl,
            (
              refl,
              (
                refl,
                (refl, (refl, (refl, (refl, (refl, (refl, (refl, (refl, (refl, (refl, tt)))))))))),
              ),
            ),
          ),
        ),
      ) in
      simp
        (height-text, height-vbox, height-hbox, height-separator, height-bold, height-color, prompt)
        refl
  height-cmd_bar false cmd_input line = simp (height-text, height-color) refl

  total-texts : (lines : List Text) → total height (map text lines) ≡ length lines
  total-texts [] = refl
  total-texts (line ∷ lines) = omega (arith, height-text line, total-texts lines)

  height-packet_panel :
      (title : Text) (lines : List Text) → height (packet_panel title lines) ≡ length lines + 4
  unfolding packet_panel block
  height-packet_panel title lines =
      simp
        (
          height-text, height-vbox, height-separator, height-bold, height-color, height-flex,
          height-frame, height-border, total-texts,
        )
        (omega arith)

  height-base_lem :
      (local_time : ℕ → LocalTime) (u : UiApp) (term_w term_h : ℕ)
      → All IsInLine u.cmd_input
      → let tx = table_of local_time u.tx_rows u.cmd_mode term_w term_h in
        let rx = table_of local_time u.rx_rows u.cmd_mode term_w term_h in
        height (base local_time u term_w term_h)
        ≡ max (length tx) (length rx) + 8 + cmd_height u.cmd_mode
  unfolding base
  height-base_lem local_time u term_w term_h line =
      let bar = height-cmd_bar u.cmd_mode u.cmd_input line in
      simp
        (
          height-vbox, height-hbox, height-flex, height-top, height-services_panel,
          height-notice_bar, bar, height-packet_panel,
        )
        (omega arith)

  module _ (local_time : ℕ → LocalTime) (documented : (s : ℕ) → IsLocalTime (local_time s)) where
    length-table_of :
        (rows : List PacketRow) (cmd_mode : Bool) (term_w term_h : ℕ)
        → All IsShowable rows
        → length (table_of local_time rows cmd_mode term_w term_h) ≤ table_rows cmd_mode term_h + 3
    unfolding table_of
    length-table_of rows cmd_mode term_w term_h s =
        let n = table_rows cmd_mode term_h in
        let desc_w = desc_width (term_w / 2) in
        let shown = shown_lines local_time n desc_w (reverse rows) in
        let lines = (preformatted_block-render local_time documented rows n (term_w / 2) s).0 in
        omega (
          arith,
          ap length lines,
          length-append shown ([] ∷ []),
          length-map (take n (reverse rows)) (table_line local_time desc_w),
          length-take n (reverse rows),
        )

    height-base :
        (u : UiApp) (term_w term_h : ℕ)
        → All IsShowable u.tx_rows
        → All IsShowable u.rx_rows
        → All IsInLine u.cmd_input
        → (if u.cmd_mode then 21 else 17) ≤ term_h
        → height (base local_time u term_w term_h) ≤ term_h
    unfolding table_rows
    height-base u term_w term_h tx rx line tall = ground (
      arith,
      height-base_lem local_time u term_w term_h line,
      length-table_of u.tx_rows u.cmd_mode term_w term_h tx,
      length-table_of u.rx_rows u.cmd_mode term_w term_h rx,
    )

    height-help : height help ≡ 22
    unfolding help
    height-help =
        simp
          (
            height-text, height-vbox, height-separator, height-bold, height-color, height-bgcolor,
            height-border,
          )
          refl

    height-under_help :
        (help_mode : Bool) (e : Element)
        → height (under_help help_mode e) ≡ (if help_mode then max (height e) 22 else height e)
    unfolding under_help
    height-under_help false e = refl
    height-under_help true e =
        simp (height-dbox, height-center, height-clear_under, height-help) refl

    -- All of the screen is on a terminal of 17 lines at least, or 21 while the command bar is open, and
    -- of 22 at least while the help is: the least height of the screen is no more than the terminal's.
    -- The elements have the heights that FTXUI documents, `localtime_r` does what it documents, the
    -- rows hold values of their C++ types, and neither they nor the text of the command bar have a line
    -- break.
    pub height-screen :
        (u : UiApp) (term_w term_h : ℕ)
        → All IsShowable u.tx_rows
        → All IsShowable u.rx_rows
        → All IsInLine u.cmd_input
        → (if u.cmd_mode then 21 else 17) ≤ term_h
        → (if u.help_mode then 22 else 17) ≤ term_h
        → height (screen local_time u term_w term_h) ≤ term_h
    unfolding screen
    height-screen u term_w term_h tx rx line tall help_tall = ground (
      arith,
      height-under_help u.help_mode (base local_time u term_w term_h),
      height-base u term_w term_h tx rx line tall,
    )
