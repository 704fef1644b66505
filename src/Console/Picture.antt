-- ===== src/Console/Picture.antt =====
-- What `redraw` and `scroll` of kernel/console/kconsole/kconsole.cpp draw from the ring of rows, as
-- the picture of a grid.
use craybond_os.Base.{ℕ, zero, suc, ◌+◌, ◌*◌, ◌^◌, ◌≤◌, ◌<◌, ◌≡◌, refl, arith, u32}
use craybond_os.Screen.Gpu.{VirtioGpu, Graphics, gpu_draw_char, gpu_clear}
use craybond_os.Console.{
  KernelConsole, Kernel, row_ptr, draw_row, draw_rows, redraw, screen_clear, scroll_ready,
}
use craybond_os.Console.Terminal.{draw_cell, paint_row, paint_rows}
use craybond_os.Console.Valid.{cell_at}

module _ {V : Type 0} (driver : VirtioGpu V) (font : ℕ → ℕ → ℕ) where
  -- A place on the screen is not cut to 32 bits.
  pub place_lem :
      (y x ch : ℕ) (g : Graphics V)
      → x < 2 ^ 29
      → y < 2 ^ 28
      → gpu_draw_char driver font (record { x = u32 (x * 8); y = u32 (y * 16) }) ch 1 0xFFFFFFFF g
        ≡ draw_cell driver font y x ch g
  unfolding draw_cell
  place_lem y x ch g h l =
      let a : u32 (x * 8) ≡ x * 8 = omega arith in
      let b : u32 (y * 16) ≡ y * 16 = omega arith in rw (a, b) refl

  draw_row-paint_row :
      (n : ℕ) (c : KernelConsole) (bytes : ℕ → ℕ) (cell : ℕ → ℕ → ℕ) (y x : ℕ) (g : Graphics V)
      → y < 2 ^ 28
      → x + n ≤ 2 ^ 29
      → ((z : ℕ) → z < x + n → bytes (row_ptr c y + z) ≡ cell y z)
      → draw_row driver font n c bytes y x g ≡ paint_row driver font n cell y x g
  unfolding draw_row paint_row
  draw_row-paint_row zero c bytes cell y x g h l e = refl
  draw_row-paint_row (suc n) c bytes cell y x g h l e =
      let here = e x (omega arith) in
      let first = place_lem y x (cell y x) g (omega arith) h in
      rw (here, first)
        (draw_row-paint_row n c bytes cell y (x + 1) (draw_cell driver font y x (cell y x) g) h
          (omega arith) (λ z k. e z (omega arith)))

  draw_rows-paint_rows :
      (n : ℕ) (c : KernelConsole) (bytes : ℕ → ℕ) (cell : ℕ → ℕ → ℕ) (y : ℕ) (g : Graphics V)
      → y + n ≤ 2 ^ 28
      → c.columns ≤ 2 ^ 29
      → ((j z : ℕ) → j < y + n → z < c.columns → bytes (row_ptr c j + z) ≡ cell j z)
      → draw_rows driver font n c bytes y g ≡ paint_rows driver font n c.columns cell y g
  unfolding draw_rows paint_rows
  draw_rows-paint_rows zero c bytes cell y g h l e = refl
  draw_rows-paint_rows (suc n) c bytes cell y g h l e =
      let first =
        draw_row-paint_row c.columns c bytes cell y 0 g (omega arith) (omega arith)
          (λ z k. e y z (omega arith) (omega arith)) in
      rw first (
        draw_rows-paint_rows n c bytes cell (y + 1) (paint_row driver font c.columns cell y 0 g)
          (omega arith) l (λ j z k m. e j z (omega arith) m))

  -- After `scroll` the screen has the picture of the grid that the ring then stands for.
  pub scroll_ready-paint_rows :
      (k : Kernel V) (cell : ℕ → ℕ → ℕ)
      → k.console.rows ≤ 2 ^ 28
      → k.console.columns ≤ 2 ^ 29
      → ((j z : ℕ)
          → j < k.console.rows
          → z < k.console.columns
          → cell_at (scroll_ready driver font k) j z ≡ cell j z)
      → (scroll_ready driver font k).gpu
        ≡ paint_rows driver font k.console.rows k.console.columns cell 0 (gpu_clear driver 0 k.gpu)
  unfolding scroll_ready redraw screen_clear cell_at
  scroll_ready-paint_rows k cell h l e =
      draw_rows-paint_rows k.console.rows _ _ cell 0 (gpu_clear driver 0 k.gpu) (omega arith) l
        (λ j z m n. e j z (omega arith) n)
