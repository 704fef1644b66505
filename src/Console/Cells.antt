-- ===== src/Console/Cells.antt =====
-- The lines of the screen of kernel/console/kconsole/kconsole.cpp, cell by cell, after each step of
-- `put_char`, `newline` and `scroll` on the ring of rows.
use native.Mathlib.Nat.{mod-eq-sub-mod}
use craybond_os.Base.{
  ℕ, ◌+◌, ◌-◌, ◌*◌, ◌%◌, ◌^◌, ◌≤◌, ◌<◌, ◌≡◌, refl, leb, ◌==◌, ◌&&◌, if◌then◌else◌, arith, inl, inr,
  add32, sub32, ◌∙◌, ap,
}
use craybond_os.Alloc.{update}
use craybond_os.Screen.Gpu.{VirtioGpu}
use craybond_os.Console.{
  KernelConsole, Kernel, blank, row_ptr, end_row, redraw, scroll_ready, store_char,
}
use craybond_os.Console.Terminal.{put_cell}
use craybond_os.Console.Valid.{
  IsLaid, IsConsole, cell_at, cell_at_lem, ring, ring_cases, ring_small, ring_eq, row_ptr_lem,
  grid_eq, blank_cell,
}

-- The row of the ring that the screen shows in a line after it has moved by one.
ring_next :
    (off y rows : ℕ)
    → off < rows
    → y < rows
    → ((off + 1) % rows + y) % rows ≡ (off + (y + 1)) % rows
ring_next off y rows h g = ground (
  arith,
  ring_cases off 1 rows h (omega arith),
  ring_cases ((off + 1) % rows) y rows (ring_small off 1 rows h (omega arith)) (omega arith),
  ring_cases off (y + 1) rows h (omega arith),
)

-- The row that `scroll` blanks is the one that was the first.
ring_last :
    (off rows : ℕ)
    → off < rows
    → rows ≤ 2 ^ 28
    → sub32 (add32 ((off + 1) % rows) rows) 1 % rows ≡ (off + 0) % rows
ring_last off rows h g =
    let next = ring_cases off 1 rows h (omega arith) in
    elim next [
      | inl (l, e) ↦
          let small : sub32 (add32 ((off + 1) % rows) rows) 1 ≡ off + rows = omega arith in
          rw (small, mod-eq-sub-mod {n = off + rows} {m = rows} (omega arith))
            (ap (λ a. a % rows) (omega arith))
      | inr (l, e) ↦
          let small : sub32 (add32 ((off + 1) % rows) rows) 1 ≡ rows - 1 = omega arith in
          rw small (ap (λ a. a % rows) (omega arith))
    ]

-- Behind the last line of the screen the ring comes back to the first.
ring_wrap :
    (off y rows : ℕ)
    → off < rows
    → y < rows
    → ((off + (y + 1)) % rows == (off + 0) % rows) ≡ (y + 1 == rows)
ring_wrap off y rows h g =
    ground
      (arith, ring_cases off (y + 1) rows h (omega arith), ring_cases off 0 rows h (omega arith))

module _ {V : Type 0} where
  -- A row pointer of the console, blanked from a column on, seen in the lines of the screen.
  blank_line :
      (k : Kernel V) (line from n y x : ℕ)
      → IsLaid k.console
      → line < k.console.rows
      → from ≤ k.console.columns
      → n ≡ k.console.columns - from
      → y < k.console.rows
      → x < k.console.columns
      → cell_at (record k { bytes = blank n (row_ptr k.console line) from k.bytes }) y x
        ≡ (if y == line && leb from x then 0 else cell_at k y x)
  unfolding ring
  blank_line k line from n y x v l f e h g =
      let c = k.console in
      let line_ring = ring_eq c.scroll_row_offset line y c.rows v.offset_within l h in
      cell_at_lem _ y x v (omega arith)
      ∙ rw (row_ptr_lem line v (omega arith), cell_at_lem k y x v (omega arith), ← line_ring)
          (blank_cell c.row_data (ring c line) (ring c y) from x c.columns n k.bytes f g e)

  -- The same for one character.
  store_cell :
      (k : Kernel V) (line col ch y x : ℕ)
      → IsLaid k.console
      → line < k.console.rows
      → col < k.console.columns
      → y < k.console.rows
      → x < k.console.columns
      → cell_at (record k { bytes = update k.bytes (row_ptr k.console line + col) ch }) y x
        ≡ put_cell (cell_at k) line col ch y x
  unfolding ring
  store_cell k line col ch y x v l f h g =
      let c = k.console in
      let line_ring = ring_eq c.scroll_row_offset line y c.rows v.offset_within l h in
      cell_at_lem _ y x v (omega arith)
      ∙ rw (row_ptr_lem line v (omega arith), cell_at_lem k y x v (omega arith), ← line_ring)
          (ap (λ b. if b then ch else k.bytes (c.row_data + ring c y * c.columns + x))
            (grid_eq c.row_data (ring c line) (ring c y) col x c.columns f g))

  pub scroll_ready-IsLaid :
      (driver : VirtioGpu V) (font : ℕ → ℕ → ℕ) (k : Kernel V)
      → IsLaid k.console
      → IsLaid (scroll_ready driver font k).console
  unfolding scroll_ready redraw
  scroll_ready-IsLaid driver font k v = record {
    some_columns = v.some_columns;
    some_rows = v.some_rows;
    few_rows = v.few_rows;
    few_columns = v.few_columns;
    offset_within =
        ring_small k.console.scroll_row_offset 1 k.console.rows v.offset_within v.some_rows;
    linked = v.linked;
  }

  pub scroll_ready-cells :
      (driver : VirtioGpu V) (font : ℕ → ℕ → ℕ) (k : Kernel V) (y x : ℕ)
      → IsLaid k.console
      → y < k.console.rows
      → x < k.console.columns
      → cell_at (scroll_ready driver font k) y x
        ≡ (if y + 1 == k.console.rows then 0 else cell_at k (y + 1) x)
  unfolding scroll_ready redraw cell_at ring
  scroll_ready-cells driver font k y x v h g =
      let c = k.console in
      let off = c.scroll_row_offset in
      let last = ring_last off c.rows v.offset_within v.few_rows in
      let first = v.linked (ring c 0) (ring_small off 0 c.rows v.offset_within (omega arith)) in
      let next = ring_next off y c.rows v.offset_within h in
      cell_at_lem (scroll_ready driver font k) y x (scroll_ready-IsLaid driver font k v)
        (omega arith)
      ∙ rw (last, next, first, cell_at_lem k (y + 1) x v (omega arith))
          (blank_cell c.row_data (ring c 0) (ring c (y + 1)) 0 x c.columns c.columns k.bytes
              (omega arith) g (omega arith)
            ∙ rw (ring_wrap off y c.rows v.offset_within h) (ground arith))

pub moved_IsLaid :
    {c : KernelConsole} (x y : ℕ) → IsLaid c → IsLaid (record c { cursor_x = x; cursor_y = y })
moved_IsLaid x y v = record {
  some_columns = v.some_columns;
  some_rows = v.some_rows;
  few_rows = v.few_rows;
  few_columns = v.few_columns;
  offset_within = v.offset_within;
  linked = v.linked;
}

pub moved_cell_at :
    {V : Type 0} (k : Kernel V) (cx cy y x : ℕ)
    → cell_at (record k { console = record k.console { cursor_x = cx; cursor_y = cy } }) y x
      ≡ cell_at k y x
unfolding cell_at row_ptr
moved_cell_at k cx cy y x = refl

pub end_row-cells :
    {V : Type 0} (k : Kernel V) (y x : ℕ)
    → IsConsole k.console
    → y < k.console.rows
    → x < k.console.columns
    → cell_at (end_row k) y x
      ≡ (if y == k.console.cursor_y && leb k.console.cursor_x x then 0 else cell_at k y x)
unfolding end_row cell_at row_ptr
end_row-cells k y x v h g =
    let c = k.console in
    blank_line k c.cursor_y c.cursor_x (c.columns - c.cursor_x) y x v.laid v.y_within v.x_within
      refl h g

pub store_char-cells :
    {V : Type 0} (driver : VirtioGpu V) (font : ℕ → ℕ → ℕ) (ch : ℕ) (k : Kernel V) (y x : ℕ)
    → IsConsole k.console
    → k.console.cursor_x < k.console.columns
    → y < k.console.rows
    → x < k.console.columns
    → cell_at (store_char driver font ch k) y x
      ≡ put_cell (cell_at k) k.console.cursor_y k.console.cursor_x ch y x
unfolding store_char cell_at row_ptr
store_char-cells driver font ch k y x v room h g =
    let c = k.console in store_cell k c.cursor_y c.cursor_x ch y x v.laid v.y_within room h g
