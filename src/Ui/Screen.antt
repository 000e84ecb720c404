-- ===== src/Ui/Screen.antt =====
-- ui/src/ui_app.cpp: `main_renderer` of UiApp::run. Non-ASCII characters are their bytes in UTF-8.
pub mod Lamps
pub mod Sizes
pub mod Height
pub mod Width
use exn_gs.Common.{
  ℕ, ◌/◌, Bool, true, false, ◌||◌, List, [], ◌∷◌, ◌++◌, Text, codes, starts_with, text_eq, map,
  if◌then◌else◌,
}
use exn_gs.Ui.{UiApp, PacketRow}
use exn_gs.Ui.Table.{LocalTime, render_packet_table_text, preformatted_block, table_rows, ellipsis}
use exn_gs.Ui.Elements.{
  Color, green, yellow, red, gray_light, black, white, Element, text, separator, filler, bold,
  border, flex, frame, clear_under, center, color, bgcolor, input, vbox, hbox, dbox,
}

-- "●"
abbrev pub bullet : Text
bullet = 226 ∷ 151 ∷ 143 ∷ []

unfoldable pub daemon_color : Text → Color
daemon_color daemon =
    if starts_with daemon (codes "CONNECTED")
    then green
    else if starts_with daemon (codes "CONNECTING") || starts_with daemon (codes "RECONNECTING")
    then yellow
    else red

unfoldable pub device_color : Text → Color
device_color device =
    if starts_with device (codes "CONNECTED")
    then green
    else if text_eq device (codes "UNKNOWN")
    then yellow
    else red

unfoldable pub top : Text → Text → Element
top daemon device =
    let top_link_names = vbox (text (codes "Daemon IPC: ") ∷ text (codes "Device Link: ") ∷ []) in
    let top_link_values = vbox (text daemon ∷ text device ∷ []) in
    let top_link_status = vbox (
      color (daemon_color daemon) (text (bullet ++ codes " "))
      ∷ color (device_color device) (text (bullet ++ codes " "))
      ∷ []) in
    hbox (
      bold (text (codes "exn-gs"))
      ∷ filler
      ∷ hbox (top_link_status ∷ top_link_names ∷ top_link_values ∷ [])
      ∷ [])

unfoldable pub services_panel : Bool → Element
services_panel hk_enabled = hbox (
    bold (text (codes "Client tasks: "))
    ∷ bold (text (codes "HK "))
    ∷ color (if hk_enabled then green else yellow) (text (bullet ++ codes "  "))
    ∷ color gray_light (text (if hk_enabled then codes "enabled" else codes "disabled"))
    ∷ color gray_light
        (text (codes "  |  scheduled traffic runs only while the device link is connected"))
    ∷ [])

-- The lines of a table, one below the other.
unfoldable pub block : List Text → Element
block lines = frame (vbox (map text lines))

unfoldable pub packet_panel : Text → List Text → Element
packet_panel title lines =
    flex (border (vbox (bold (text title) ∷ separator ∷ color gray_light (block lines) ∷ [])))

unfoldable pub notice_bar : Text → Element
notice_bar [] = color gray_light (text (codes "Status: ready"))
notice_bar (c ∷ cs) =
    color (if starts_with (c ∷ cs) (codes "ERROR") then red else gray_light)
      (text (codes "Status: " ++ c ∷ cs))

unfoldable pub cmd_bar : Bool → Text → Element
cmd_bar true cmd_input = vbox (
    separator
    ∷ hbox (bold (text (codes "CMD:/> ")) ∷ input cmd_input (codes "type command" ++ ellipsis) ∷ [])
    ∷ separator
    ∷ color gray_light
        (text (codes "Enter=send   Esc=close   command input owns all character keys"))
    ∷ [])
cmd_bar false cmd_input = color gray_light (text (codes "Keys: c=CMD   h=HELP   q=QUIT"))

unfoldable pub help : Element
help = color white (
    bgcolor black (
      border (
        vbox (
          bold (text (codes "Help"))
          ∷ separator
          ∷ bold (text (codes "UI keys:"))
          ∷ text (codes "  c   open command bar")
          ∷ text (codes "  h   toggle this help when the command bar is closed")
          ∷ text (codes "  q   quit when command/help is closed")
          ∷ text (codes "  Esc close command/help")
          ∷ separator
          ∷ bold (text (codes "Daemon transport/operations:"))
          ∷ text (codes "  CONNECT       open the configured device transport")
          ∷ text (codes "  DISCONNECT    close the device transport")
          ∷ text (codes "  RECONNECT     cycle the device transport")
          ∷ text (codes "  PING          daemon IPC liveness check")
          ∷ text (codes "  STATUS        query current device-link state")
          ∷ text (codes "  STATS         query router transport counters")
          ∷ separator
          ∷ bold (text (codes "UI-owned application tasks:"))
          ∷ text (codes "  HK_ENABLE     enable 30 s System HK snapshots")
          ∷ text (codes "  HK_DISABLE    disable periodic System HK snapshots")
          ∷ text (codes "  HK_REQ        send one System HK request")
          ∷ []))))

-- The screen with the help on it, while it is shown.
unfoldable pub under_help : Bool → Element → Element
under_help false base = base
under_help true base = dbox (base ∷ center (clear_under help) ∷ [])

module _ (local_time : ℕ → LocalTime) where
  -- The lines of a table on a terminal of that width and height.
  unfoldable pub table_of : List PacketRow → Bool → ℕ → ℕ → List Text
  table_of rows cmd_mode term_w term_h =
      preformatted_block
        (render_packet_table_text local_time rows (table_rows cmd_mode term_h) (term_w / 2))

  unfoldable pub base : UiApp → ℕ → ℕ → Element
  base u term_w term_h =
      let tx_panel =
        packet_panel (codes "Packets TX (GS -> device link)")
          (table_of u.tx_rows u.cmd_mode term_w term_h) in
      let rx_panel =
        packet_panel (codes "Packets RX (device link -> GS)")
          (table_of u.rx_rows u.cmd_mode term_w term_h) in
      vbox (
        top u.daemon_line u.device_line
        ∷ services_panel u.hk_enabled
        ∷ notice_bar u.notice_line
        ∷ flex (hbox (tx_panel ∷ rx_panel ∷ []))
        ∷ cmd_bar u.cmd_mode u.cmd_input
        ∷ [])

  unfoldable pub screen : UiApp → ℕ → ℕ → Element
  screen u term_w term_h = under_help u.help_mode (base u term_w term_h)
