-- ===== src/Ui/Screen/Sizes.antt =====
-- The least sizes that FTXUI documents for the elements of ui/src/ui_app.cpp.
use Prim.Native.Nat.{max}
use exn_gs.Common.{ℕ, ◌+◌, ◌≤◌, ◌<◌, ◌≡◌, List, [], ◌∷◌, Text, All, length}
use exn_gs.Ui.Table.Columns.{IsInLine}
use exn_gs.Ui.Elements.{
  Color, Element, text, separator, filler, bold, border, flex, frame, clear_under, center, color,
  bgcolor, input, vbox, hbox, dbox,
}

abbrev pub total : (Element → ℕ) → List Element → ℕ
total f [] = 0
total f (e ∷ es) = f e + total f es

abbrev pub largest : (Element → ℕ) → List Element → ℕ
largest f [] = 0
largest f (e ∷ es) = max (f e) (largest f es)

-- A character that takes one column.
abbrev pub IsPrintable : ℕ → Type 0
IsPrintable c = (32 ≤ c) × (c < 127)

pub record Sizes : Type 0 where
  pub height : Element → ℕ
  pub width : Element → ℕ
  pub height-text : (t : Text) → height (text t) ≡ 1
  pub width-text : (t : Text) → All IsPrintable t → width (text t) ≡ length t
  pub height-vbox : (es : List Element) → height (vbox es) ≡ total height es
  pub width-vbox : (es : List Element) → width (vbox es) ≡ largest width es
  pub height-hbox : (es : List Element) → height (hbox es) ≡ largest height es
  pub width-hbox : (es : List Element) → width (hbox es) ≡ total width es
  pub height-separator : height separator ≡ 1
  pub height-filler : height filler ≡ 0
  pub height-bold : (e : Element) → height (bold e) ≡ height e
  pub height-color : (c : Color) (e : Element) → height (color c e) ≡ height e
  pub width-color : (c : Color) (e : Element) → width (color c e) ≡ width e
  pub height-flex : (e : Element) → height (flex e) ≡ height e
  pub width-flex : (e : Element) → width (flex e) ≡ width e
  pub height-frame : (e : Element) → height (frame e) ≡ height e
  pub width-frame : (e : Element) → width (frame e) ≡ width e
  pub height-border : (e : Element) → height (border e) ≡ height e + 2
  pub width-border : (e : Element) → width (border e) ≡ width e + 2
  pub height-dbox : (es : List Element) → height (dbox es) ≡ largest height es
  pub height-clear_under : (e : Element) → height (clear_under e) ≡ height e
  pub height-center : (e : Element) → height (center e) ≡ height e
  pub height-bgcolor : (c : Color) (e : Element) → height (bgcolor c e) ≡ height e
  -- an input shows its content or, where that is empty, its placeholder, of one line each
  pub height-input :
      (content placeholder : Text)
      → All IsInLine content
      → All IsInLine placeholder
      → height (input content placeholder) ≡ 1
