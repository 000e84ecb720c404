-- ===== src/Tests/Screens.antt =====
-- Concrete screens.
use Prim.Native.Nat.{max}
use exn_gs.Common.{
  true, ℕ, ◌+◌, ◌≤◌, ◌<◌, ◌≡◌, refl, arith, ap, List, [], ◌∷◌, Text, codes, length, text_eq,
  if◌then◌else◌,
}
use exn_gs.Ui.{UiApp, new_app}
use exn_gs.Ui.Events.{run}
use exn_gs.Ui.Elements.{
  green, yellow, red, Element, Elements, end, before, text, vbox_of, hbox_of, dbox_of, separator,
  filler, bold, border, flex, frame, clear_under, center, color, bgcolor, input, elements,
}
use exn_gs.Ui.Screen.{base, screen}
use exn_gs.Ui.Screen.Sizes.{Sizes, total, largest}
use exn_gs.Ui.Screen.Lamps.{lamps, run-lamps}
use exn_gs.Ui.Screen.Height.{height-screen}
use exn_gs.Ui.Screen.Width.{width-base}
use exn_gs.Tests.Instances.{demo}
use exn_gs.Tests.Interfaces.{events, row, row-IsShowable, demo_time, demo_time-IsLocalTime}

run-lamps_example :
    let u = (run demo new_app events).0 in
    lamps (screen demo_time u 120 40)
    ≡ (if u.daemon_connected then green else yellow)
      ∷ (if u.device_connected
          then green
          else if text_eq u.device_line (codes "UNKNOWN")
          then yellow
          else red)
      ∷ (if u.hk_enabled then green else yellow)
      ∷ []
run-lamps_example = run-lamps demo demo_time events 120 40

-- The lines or the columns of an element: of a text, and of what stands below or beside.
unfoldable mutual
  extent : (Text → ℕ) → (ℕ → ℕ → ℕ) → (ℕ → ℕ → ℕ) → Element → ℕ
  extent t v h (text s) = t s
  extent t v h (vbox_of es) = joined t v h v es
  extent t v h (hbox_of es) = joined t v h h es
  extent t v h (dbox_of es) = joined t v h max es
  extent t v h separator = 1
  extent t v h filler = 0
  extent t v h (bold e) = extent t v h e
  extent t v h (border e) = extent t v h e + 2
  extent t v h (flex e) = extent t v h e
  extent t v h (frame e) = extent t v h e
  extent t v h (clear_under e) = extent t v h e
  extent t v h (center e) = extent t v h e
  extent t v h (color c e) = extent t v h e
  extent t v h (bgcolor c e) = extent t v h e
  extent t v h (input content placeholder) = 1

  joined : (Text → ℕ) → (ℕ → ℕ → ℕ) → (ℕ → ℕ → ℕ) → (ℕ → ℕ → ℕ) → Elements → ℕ
  joined t v h op end = 0
  joined t v h op (before e es) = op (extent t v h e) (joined t v h op es)

abbrev plus : ℕ → ℕ → ℕ
plus a b = a + b

abbrev lines : Element → ℕ
lines = extent (λ t. 1) plus max

abbrev columns : Element → ℕ
columns = extent length max plus

joined-total :
    (t : Text → ℕ) (v h : ℕ → ℕ → ℕ) (es : List Element)
    → joined t v h plus (elements es) ≡ total (extent t v h) es
unfolding extent
joined-total t v h [] = refl
joined-total t v h (e ∷ es) = ap (plus (extent t v h e)) (joined-total t v h es)

joined-largest :
    (t : Text → ℕ) (v h : ℕ → ℕ → ℕ) (es : List Element)
    → joined t v h max (elements es) ≡ largest (extent t v h) es
unfolding extent
joined-largest t v h [] = refl
joined-largest t v h (e ∷ es) = ap (max (extent t v h e)) (joined-largest t v h es)

demo_sizes : Sizes
unfolding extent
demo_sizes = record {
  height = lines;
  width = columns;
  height-text = λ t. refl;
  width-text = λ t h. refl;
  height-vbox = λ es. joined-total (λ t. 1) plus max es;
  width-vbox = λ es. joined-largest length max plus es;
  height-hbox = λ es. joined-largest (λ t. 1) plus max es;
  width-hbox = λ es. joined-total length max plus es;
  height-separator = refl;
  height-filler = refl;
  height-bold = λ e. refl;
  height-color = λ c e. refl;
  width-color = λ c e. refl;
  height-flex = λ e. refl;
  width-flex = λ e. refl;
  height-frame = λ e. refl;
  width-frame = λ e. refl;
  height-border = λ e. refl;
  width-border = λ e. refl;
  height-dbox = λ es. joined-largest (λ t. 1) plus max es;
  height-clear_under = λ e. refl;
  height-center = λ e. refl;
  height-bgcolor = λ c e. refl;
  height-input = λ content placeholder line line'. refl;
}

-- One packet in each table.
abbrev two_rows : UiApp
two_rows = record new_app { tx_rows = row ∷ []; rx_rows = row ∷ [] }

-- With the help and the command bar open.
abbrev all_open : UiApp
all_open = record two_rows { help_mode = true; cmd_mode = true; cmd_input = codes "PI" }

height-screen_example : demo_sizes.height (screen demo_time all_open 120 22) ≤ 22
height-screen_example =
    height-screen demo_sizes demo_time demo_time-IsLocalTime all_open 120 22 (row-IsShowable, tt)
      (row-IsShowable, tt) (refl, (refl, tt)) (omega arith) (omega arith)

width-base_example : 200 < demo_sizes.width (base demo_time two_rows 200 24)
width-base_example =
    width-base demo_sizes demo_time demo_time-IsLocalTime two_rows 200 24 (row-IsShowable, tt)
      (row-IsShowable, tt) (omega arith)
