-- ===== src/Console/Terminal.antt =====
-- The terminal that kernel/console/kconsole/kconsole.cpp stands for: a grid of characters, a cursor
-- and what has been drawn, with no memory, no row pointers and no ring of rows.
use craybond_os.Base.{ℕ, zero, suc, ◌+◌, ◌*◌, leb, ◌==◌, ◌&&◌, if◌then◌else◌, List, [], ◌∷◌}
use craybond_os.Screen.Gpu.{Graphics, VirtioGpu, gpu_clear, gpu_draw_char}

pub record Terminal (V : Type 0) : Type 0 where
  pub columns : ℕ
  pub rows : ℕ
  pub x : ℕ
  pub y : ℕ
  pub cell : ℕ → ℕ → ℕ
  pub gpu : Graphics V

-- The grid with the cell at row `y` and column `x` changed.
abbrev pub put_cell : (ℕ → ℕ → ℕ) → (y x ch : ℕ) → ℕ → ℕ → ℕ
put_cell cell y x ch j i = if j == y && i == x then ch else cell j i

-- A line feed: the rest of the row is blanked; below the last row the grid moves up by one row.
-- Nothing is drawn.
unfoldable pub feed : {V : Type 0} → Terminal V → Terminal V
feed t =
    let ended = λ (j i : ℕ). if j == t.y && leb t.x i then 0 else t.cell j i in
    let moved = λ (j i : ℕ). if j + 1 == t.rows then 0 else ended (j + 1) i in
    let last = t.y + 1 == t.rows in
    record t { x = 0; y = if last then t.y else t.y + 1; cell = if last then moved else ended }

module _ {V : Type 0} (driver : VirtioGpu V) (font : ℕ → ℕ → ℕ) where
  -- A character in white at its place, 8 pixels by 16.
  unfoldable pub draw_cell : (y x ch : ℕ) → Graphics V → Graphics V
  draw_cell y x ch g =
      gpu_draw_char driver font (record { x = x * 8; y = y * 16 }) ch 1 0xFFFFFFFF g

  -- `n` characters of a row from the column `x` on, and `n` rows from the row `y` on.
  unfoldable pub paint_row : (n : ℕ) → (ℕ → ℕ → ℕ) → (y x : ℕ) → Graphics V → Graphics V
  unfolding draw_cell
  paint_row zero cell y x g = g
  paint_row (suc n) cell y x g = paint_row n cell y (x + 1) (draw_cell y x (cell y x) g)

  unfoldable pub paint_rows : (n columns : ℕ) → (ℕ → ℕ → ℕ) → (y : ℕ) → Graphics V → Graphics V
  unfolding paint_row
  paint_rows zero columns cell y g = g
  paint_rows (suc n) columns cell y g =
      paint_rows n columns cell (y + 1) (paint_row columns cell y 0 g)

  -- The whole grid, on a cleared screen.
  unfoldable pub paint : Terminal V → Graphics V
  unfolding paint_rows
  paint t = paint_rows t.rows t.columns t.cell 0 (gpu_clear driver 0 t.gpu)

  -- The grid is drawn anew when it has moved.
  unfoldable pub line_feed : Terminal V → Terminal V
  unfolding feed paint
  line_feed t =
      let fed = feed t in record fed { gpu = if t.y + 1 == t.rows then paint fed else t.gpu }

  unfoldable pub type_char : ℕ → Terminal V → Terminal V
  unfolding line_feed draw_cell
  type_char ch t =
      let t' = if leb t.columns t.x then line_feed t else t in
      if ch == b'\n' then line_feed t else record t' {
        cell = put_cell t'.cell t'.y t'.x ch;
        x = t'.x + 1;
        gpu = draw_cell t'.y t'.x ch t'.gpu;
      }

  unfoldable pub type_text : List ℕ → Terminal V → Terminal V
  unfolding type_char
  type_text [] t = t
  type_text (ch ∷ str) t = let rest = type_text str (type_char ch t) in if ch == 0 then t else rest

unfoldable pub blank_terminal : {V : Type 0} → (columns rows : ℕ) → Graphics V → Terminal V
blank_terminal columns rows g = record {
  columns = columns;
  rows = rows;
  x = 0;
  y = 0;
  cell = λ j i. 0;
  gpu = g;
}
