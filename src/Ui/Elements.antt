-- ===== src/Ui/Elements.antt =====
-- The calls of FTXUI that ui/src/ui_app.cpp makes for its screen (ftxui/dom/elements.hpp, which is not part
-- of the repository), as data.
use exn_gs.Common.{List, [], ◌∷◌, Text}

pub data Color : Type 0 where
  green yellow red gray_light black white : Color

-- `input content placeholder` is `Input(&content, placeholder)->Render()`.
mutual
  pub data Element : Type 0 where
    text : Text → Element
    vbox_of hbox_of dbox_of : Elements → Element
    separator filler : Element
    bold border flex frame clear_under center : Element → Element
    color bgcolor : Color → Element → Element
    input : Text → Text → Element

  pub data Elements : Type 0 where
    end : Elements
    before : Element → Elements → Elements

abbrev pub elements : List Element → Elements
elements [] = end
elements (e ∷ es) = before e (elements es)

abbrev pub vbox : List Element → Element
vbox es = vbox_of (elements es)

abbrev pub hbox : List Element → Element
hbox es = hbox_of (elements es)

abbrev pub dbox : List Element → Element
dbox es = dbox_of (elements es)
