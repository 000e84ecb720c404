-- ===== src/Ui/Screen/Lamps.antt =====
-- ui/src/ui_app.cpp: the lamps on the screen.
use exn_gs.Common.{
  ℕ, ◌≡◌, refl, Bool, true, false, List, [], ◌∷◌, ◌++◌, Text, codes, starts_with, text_eq, map,
  if◌then◌else◌, ◌∙◌, append-nil,
}
use exn_gs.SpacePacket.Library.{Pack}
use exn_gs.Ui.{UiApp, new_app}
use exn_gs.Ui.Table.{LocalTime}
use exn_gs.Ui.Elements.{
  Color, green, yellow, red, Element, Elements, end, before, text, vbox_of, hbox_of, dbox_of,
  separator, filler, bold, border, flex, frame, clear_under, center, color, bgcolor, input,
  elements,
}
use exn_gs.Ui.Screen.{
  bullet, daemon_color, device_color, top, services_panel, block, packet_panel, notice_bar, cmd_bar,
  help, table_of, base, screen, under_help,
}
use exn_gs.Ui.Events.{Event, run}
use exn_gs.Ui.Events.Lights.{run-new_app-IsHonest}

-- A text with a bullet that is coloured by itself.
abbrev lamp : Color → Element → List Color
lamp c (text t) = if starts_with t bullet then c ∷ [] else []
lamp c _ = []

-- The colours of the lamps, from left to right and from top to bottom.
unfoldable mutual
  pub lamps : Element → List Color
  lamps (text t) = []
  lamps (vbox_of es) = lamps_of es
  lamps (hbox_of es) = lamps_of es
  lamps (dbox_of es) = lamps_of es
  lamps separator = []
  lamps filler = []
  lamps (bold e) = lamps e
  lamps (border e) = lamps e
  lamps (flex e) = lamps e
  lamps (frame e) = lamps e
  lamps (clear_under e) = lamps e
  lamps (center e) = lamps e
  lamps (color c e) = lamp c e ++ lamps e
  lamps (bgcolor c e) = lamps e
  lamps (input content placeholder) = []

  pub lamps_of : Elements → List Color
  lamps_of end = []
  lamps_of (before e es) = lamps e ++ lamps_of es

lamps-texts : (lines : List Text) → lamps_of (elements (map text lines)) ≡ []
unfolding lamps
lamps-texts [] = refl
lamps-texts (line ∷ lines) = lamps-texts lines

lamps-panel : (title : Text) (lines : List Text) → lamps (packet_panel title lines) ≡ []
unfolding lamps packet_panel block
lamps-panel title lines = rw (lamps-texts lines) refl

lamps-notice_bar : (notice : Text) → lamps (notice_bar notice) ≡ []
unfolding lamps notice_bar
lamps-notice_bar [] = refl
lamps-notice_bar (c ∷ cs) = refl

lamps-cmd_bar : (cmd_mode : Bool) (cmd_input : Text) → lamps (cmd_bar cmd_mode cmd_input) ≡ []
unfolding lamps cmd_bar
lamps-cmd_bar true cmd_input = refl
lamps-cmd_bar false cmd_input = refl

lamps-services_panel :
    (hk_enabled : Bool)
    → lamps (services_panel hk_enabled) ≡ (if hk_enabled then green else yellow) ∷ []
unfolding lamps services_panel
lamps-services_panel true = refl
lamps-services_panel false = refl

lamps-help : lamps help ≡ []
unfolding lamps help
lamps-help = refl

lamps-under_help : (help_mode : Bool) (e : Element) → lamps (under_help help_mode e) ≡ lamps e
unfolding lamps under_help
lamps-under_help false e = refl
lamps-under_help true e = rw (lamps-help, append-nil) refl

module _ (local_time : ℕ → LocalTime) where
  lamps-base :
      (u : UiApp) (term_w term_h : ℕ)
      → lamps (base local_time u term_w term_h)
        ≡ daemon_color u.daemon_line
          ∷ device_color u.device_line
          ∷ (if u.hk_enabled then green else yellow)
          ∷ []
  unfolding lamps base top
  lamps-base u term_w term_h =
      let tx = table_of local_time u.tx_rows u.cmd_mode term_w term_h in
      let rx = table_of local_time u.rx_rows u.cmd_mode term_w term_h in
      rw
        (
          lamps-services_panel u.hk_enabled,
          lamps-notice_bar u.notice_line,
          lamps-panel (codes "Packets TX (GS -> device link)") tx,
          lamps-panel (codes "Packets RX (device link -> GS)") rx,
          lamps-cmd_bar u.cmd_mode u.cmd_input,
        )
        refl

device_color_lem :
    (device : Text) (connected : Bool)
    → connected ≡ starts_with device (codes "CONNECTED")
    → device_color device
      ≡ (if connected then green else if text_eq device (codes "UNKNOWN") then yellow else red)
unfolding device_color
device_color_lem device connected e = rw e refl

-- Whatever happens, with or without the help, on a terminal of any size: the screen has three lamps. The
-- first is green while the daemon is connected and else yellow; the second is green while the device is
-- connected, yellow while its state is shown as UNKNOWN, and else red; the third is green while the
-- periodic requests are enabled and else yellow.
pub run-lamps :
    (pack : Pack) (local_time : ℕ → LocalTime) (es : List Event) (term_w term_h : ℕ)
    → let u = (run pack new_app es).0 in
      lamps (screen local_time u term_w term_h)
      ≡ (if u.daemon_connected then green else yellow)
        ∷ (if u.device_connected
            then green
            else if text_eq u.device_line (codes "UNKNOWN")
            then yellow
            else red)
        ∷ (if u.hk_enabled then green else yellow)
        ∷ []
unfolding screen
run-lamps pack local_time es term_w term_h =
    let u = (run pack new_app es).0 in
    let (_, device, _, daemon) = run-new_app-IsHonest pack es in
    lamps-under_help u.help_mode (base local_time u term_w term_h)
    ∙ lamps-base local_time u term_w term_h
    ∙ rw (daemon, device_color_lem u.device_line u.device_connected device) refl
