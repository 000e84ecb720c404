-- ===== src/Ui/Table/Cells.antt =====
-- ui/src/ui_app.cpp: the cells of a line of the packet table.
use exn_gs.Common.{
  length-replicate, ℕ, suc, ◌+◌, ◌^◌, ◌≤◌, ◌<◌, ◌≡◌, refl, arith, sym, List, [], ◌∷◌, ◌++◌, Text,
  codes, length, length-append, replicate, All, All-append, length-to_string, to_string,
  append_assoc, Bool-cases, inl, inr, if◌then◌else◌,
}
use exn_gs.Ui.Table.{pad_left, pad_right, cols, base_width, header_cells, cells, Col}
use exn_gs.Ui.Table.Columns.{
  IsInLine, length-pad_left, length-pad_right, pad_left-IsInLine, pad_right-IsInLine,
  number-IsInLine, replicate-IsInLine,
}

-- A line of the table: text of one line in that width.
abbrev pub IsTableLine : ℕ → Text → Type 0
IsTableLine w line = All IsInLine line × (length line ≡ w)

pub append-IsTableLine :
    (v w : ℕ) (a b : Text) → IsTableLine v a → IsTableLine w b → IsTableLine (v + w) (a ++ b)
append-IsTableLine v w a b (ha, la) (hb, lb) =
    (All-append IsInLine a b ha hb, omega (arith, length-append a b))

-- Values that fit their columns.
abbrev pub Fits : List Col → List Text → Type 0
Fits [] vals = Unit
Fits (c ∷ cs) [] = ⊥
Fits (c ∷ cs) (v ∷ vals) = (All IsInLine v × (length v ≤ c.w)) × Fits cs vals

cell-IsTableLine :
    (c : Col) (v : Text)
    → All IsInLine v
    → length v ≤ c.w
    → IsTableLine (c.w + 1) ((if c.right then pad_left v c.w else pad_right v c.w) ++ b' ' ∷ [])
cell-IsTableLine c v h fits = elim (Bool-cases c.right) [
  | inl e ↦ rw e (
      append-IsTableLine c.w 1 (pad_left v c.w) (b' ' ∷ [])
        (pad_left-IsInLine v c.w h, length-pad_left v c.w fits) ((refl, tt), refl))
  | inr e ↦ rw e (
      append-IsTableLine c.w 1 (pad_right v c.w) (b' ' ∷ [])
        (pad_right-IsInLine v c.w h, length-pad_right v c.w) ((refl, tt), refl))
]

pub cells-IsTableLine :
    (cs : List Col) (vals : List Text) → Fits cs vals → IsTableLine (base_width cs) (cells cs vals)
cells-IsTableLine [] vals h = (tt, refl)
cells-IsTableLine (c ∷ cs) [] h = absurd h
cells-IsTableLine (c ∷ cs) (v ∷ vals) ((line, fits), h) =
    let cell = (if c.right then pad_left v c.w else pad_right v c.w) in
    rw (sym (append_assoc cell (b' ' ∷ []) (cells cs vals))) (
      append-IsTableLine (c.w + 1) (base_width cs) (cell ++ b' ' ∷ []) (cells cs vals)
        (cell-IsTableLine c v line fits) (cells-IsTableLine cs vals h))

pub number_fits :
    (k n w : ℕ)
    → n < 10 ^ suc k
    → suc k ≤ w
    → All IsInLine (to_string n) × (length (to_string n) ≤ w)
number_fits k n w h fits = (number-IsInLine n, omega (arith, length-to_string k n h))

header_cells-IsTableLine :
    (cs : List Col)
    → All (λ c. All IsInLine c.name) cs
    → IsTableLine (base_width cs) (header_cells cs)
header_cells-IsTableLine [] h = (tt, refl)
header_cells-IsTableLine (c ∷ cs) h =
    rw (sym (append_assoc (pad_right c.name c.w) (b' ' ∷ []) (header_cells cs))) (
      append-IsTableLine (c.w + 1) (base_width cs) (pad_right c.name c.w ++ b' ' ∷ [])
        (header_cells cs)
        (append-IsTableLine c.w 1 (pad_right c.name c.w) (b' ' ∷ [])
          (pad_right-IsInLine c.name c.w h.0, length-pad_right c.name c.w) ((refl, tt), refl))
        (header_cells-IsTableLine cs h.1))

abbrev pub heading : ℕ → Text
heading desc_w = header_cells cols ++ pad_right (codes "DESC") desc_w

abbrev pub rule : ℕ → Text
rule desc_w = replicate (base_width cols + desc_w) b'-'

pub heading-IsTableLine : (desc_w : ℕ) → IsTableLine (base_width cols + desc_w) (heading desc_w)
heading-IsTableLine desc_w =
    append-IsTableLine (base_width cols) desc_w (header_cells cols)
      (pad_right (codes "DESC") desc_w)
      (header_cells-IsTableLine cols (
        (refl, (refl, tt)),
        (
          (refl, (refl, (refl, tt))),
          (
            (refl, (refl, (refl, tt))),
            (
              (refl, (refl, (refl, tt))),
              (
                (refl, (refl, (refl, (refl, tt)))),
                (
                  (refl, (refl, (refl, (refl, tt)))),
                  (
                    (refl, (refl, (refl, tt))),
                    (
                      (refl, (refl, (refl, tt))),
                      ((refl, (refl, (refl, tt))), ((refl, (refl, (refl, tt))), tt)),
                    ),
                  ),
                ),
              ),
            ),
          ),
        ),
      ))
      (
        pad_right-IsInLine (codes "DESC") desc_w (refl, (refl, (refl, (refl, tt)))),
        length-pad_right (codes "DESC") desc_w,
      )

pub rule-IsTableLine : (desc_w : ℕ) → IsTableLine (base_width cols + desc_w) (rule desc_w)
rule-IsTableLine desc_w = (
  replicate-IsInLine (base_width cols + desc_w) b'-' refl,
  length-replicate (base_width cols + desc_w) b'-',
)
