-- ===== src/Console/Valid.antt =====
-- The console of kernel/console/kconsole/kconsole.cpp between two calls: its state, where its rows
-- lie in the memory, and what writing into a row does to the others.
use native.Mathlib.Nat.{mod-eq_of_lt, mod-eq-sub-mod, mul-le-mul_right}
use craybond_os.Base.{
  ℕ, zero, suc, ◌+◌, ◌-◌, ◌*◌, ◌%◌, ◌^◌, ◌≤◌, ◌<◌, ◌≡◌, refl, true, leb, ltb, ◌==◌, ◌&&◌,
  if◌then◌else◌, arith, inl, inr, ◌⊎◌, add32, eq_or_ne, ==_refl, ==_ne, Bool-cases, ◌∙◌, ap,
}
use craybond_os.Alloc.{update}
use craybond_os.Screen.Gpu.{
  VirtioGpu, Graphics, Drawing, Point, draw_char, draw-Dispatched, gpu_ready, gpu_draw_char,
  gpu_clear,
}
use craybond_os.Console.{
  KernelConsole, Kernel, blank, row_ptr, draw_row, draw_rows, redraw, screen_clear, scroll_ready,
}

-- The rows of the console lie one after the other behind `row_data`.
pub record IsLaid (c : KernelConsole) : Type 0 where
  pub some_columns : 0 < c.columns
  pub some_rows : 0 < c.rows
  pub few_rows : c.rows ≤ 2 ^ 28
  pub few_columns : c.columns ≤ 2 ^ 29
  pub offset_within : c.scroll_row_offset < c.rows
  pub linked : (i : ℕ) → i < c.rows → c.buffer i ≡ c.row_data + i * c.columns

pub record IsConsole (c : KernelConsole) : Type 0 where
  pub initialized : c.is_initialized ≡ true
  pub laid : IsLaid c
  pub x_within : c.cursor_x ≤ c.columns
  pub y_within : c.cursor_y < c.rows

pub record IsValid {V : Type 0} (driver : VirtioGpu V) (k : Kernel V) : Type 0 where
  pub console : IsConsole k.console
  pub ready : gpu_ready driver k.gpu ≡ true

unfoldable pub cell_at : {V : Type 0} → Kernel V → (y x : ℕ) → ℕ
cell_at k y x = k.bytes (row_ptr k.console y + x)

-- The row of the ring that line `y` of the screen is.
unfoldable pub ring : KernelConsole → ℕ → ℕ
ring c y = (c.scroll_row_offset + y) % c.rows

pub ring_cases :
    (off y rows : ℕ)
    → off < rows
    → y ≤ rows
    → ((off + y < rows) × ((off + y) % rows ≡ off + y))
      ⊎ ((rows ≤ off + y) × ((off + y) % rows ≡ off + y - rows))
ring_cases off y rows h g = elim (Bool-cases (ltb (off + y) rows)) [
  | inl e ↦ let l : off + y < rows = ground arith in inl (l, mod-eq_of_lt l)
  | inr e ↦ inr (
    ground arith,
    mod-eq-sub-mod {n = off + y} {m = rows} (ground arith)
        ∙ mod-eq_of_lt {n = off + y - rows} {m = rows} (ground arith),
  )
]

pub ring_small : (off y rows : ℕ) → off < rows → y ≤ rows → (off + y) % rows < rows
ring_small off y rows h g = elim (ring_cases off y rows h g) [
  | inl (l, e) ↦ omega arith
  | inr (l, e) ↦ omega arith
]

pub ring_eq :
    (off y z rows : ℕ)
    → off < rows
    → y < rows
    → z < rows
    → ((off + z) % rows == (off + y) % rows) ≡ (z == y)
ring_eq off y z rows h g l =
    ground (arith, ring_cases off y rows h (omega arith), ring_cases off z rows h (omega arith))

-- Where a line begins.
pub row_ptr_lem :
    {c : KernelConsole} (y : ℕ)
    → IsLaid c
    → y ≤ c.rows
    → row_ptr c y ≡ c.row_data + ring c y * c.columns
unfolding row_ptr ring
row_ptr_lem {c} y v h =
    let small : add32 c.scroll_row_offset y ≡ c.scroll_row_offset + y =
      omega (arith, v.offset_within, v.few_rows) in
    rw (row_ptr, small) (v.linked _ (ring_small c.scroll_row_offset y c.rows v.offset_within h))

-- Two cells of the grid share an address only if they are the same.
grid_apart :
    (i j x z columns : ℕ) → x < columns → z < columns → i < j → i * columns + x < j * columns + z
grid_apart i j x z columns h g l =
    omega (arith, mul-le-mul_right {m = suc i} {n = j} columns (omega arith))

pub grid_eq :
    (base i j x z columns : ℕ)
    → x < columns
    → z < columns
    → (base + j * columns + z == base + i * columns + x) ≡ (j == i && z == x)
grid_eq base i j x z columns h g = elim (eq_or_ne j i) [
  | inl e ↦ rw (e, ==_refl) (ground arith)
  | inr ne ↦ ground (arith, grid_apart i j x z columns, grid_apart j i z x columns)
]

pub blank_lem :
    (n row x : ℕ) (bytes : ℕ → ℕ) (a : ℕ)
    → blank n row x bytes a ≡ (if leb (row + x) a && ltb a (row + x + n) then 0 else bytes a)
unfolding blank
blank_lem zero row x bytes a = ground arith
blank_lem (suc n) row x bytes a =
    ground (arith, blank_lem n row (x + 1) (update bytes (row + x) 0) a)

-- Blanking row `i` from a column on, seen at any cell of the grid.
pub blank_cell :
    (base i j from z columns n : ℕ) (bytes : ℕ → ℕ)
    → from ≤ columns
    → z < columns
    → n ≡ columns - from
    → blank n (base + i * columns) from bytes (base + j * columns + z)
      ≡ (if j == i && leb from z then 0 else bytes (base + j * columns + z))
blank_cell base i j from z columns n bytes h g e = elim (eq_or_ne j i) [
  | inl same ↦
      rw (same, ==_refl)
        (ground (arith, blank_lem n (base + i * columns) from bytes (base + i * columns + z)))
  | inr ne ↦ rw (==_ne j i ne) (
      ground (
        arith,
        blank_lem n (base + i * columns) from bytes (base + j * columns + z),
        grid_apart i j (columns - 1) z columns,
        grid_apart j i z 0 columns,
      ))
]

pub cell_at_lem :
    {V : Type 0} (k : Kernel V) (y x : ℕ)
    → IsLaid k.console
    → y ≤ k.console.rows
    → cell_at k y x ≡ k.bytes (k.console.row_data + ring k.console y * k.console.columns + x)
unfolding cell_at
cell_at_lem k y x v h = ap (λ p. k.bytes (p + x)) (row_ptr_lem y v h)

-- Drawing leaves the graphics ready.
module _ {V : Type 0} (driver : VirtioGpu V) (font : ℕ → ℕ → ℕ) where
  pub clear-ready :
      (g : Graphics V) (color : ℕ)
      → gpu_ready driver (gpu_clear driver color g) ≡ gpu_ready driver g
  clear-ready g color = (draw-Dispatched driver (Drawing.clear color) g).ready

  draw_row-ready :
      (n : ℕ) (c : KernelConsole) (bytes : ℕ → ℕ) (y x : ℕ) (g : Graphics V)
      → gpu_ready driver (draw_row driver font n c bytes y x g) ≡ gpu_ready driver g
  unfolding draw_row
  draw_row-ready zero c bytes y x g = refl
  draw_row-ready (suc n) c bytes y x g =
      draw_row-ready n c bytes y (x + 1) _
      ∙ (draw-Dispatched driver (draw_char font _ (bytes (row_ptr c y + x)) 1 0xFFFFFFFF) g).ready

  draw_rows-ready :
      (n : ℕ) (c : KernelConsole) (bytes : ℕ → ℕ) (y : ℕ) (g : Graphics V)
      → gpu_ready driver (draw_rows driver font n c bytes y g) ≡ gpu_ready driver g
  unfolding draw_rows
  draw_rows-ready zero c bytes y g = refl
  draw_rows-ready (suc n) c bytes y g =
      draw_rows-ready n c bytes (y + 1) _ ∙ draw_row-ready c.columns c bytes y 0 g

  pub scroll_ready-ready :
      (k : Kernel V) → gpu_ready driver (scroll_ready driver font k).gpu ≡ gpu_ready driver k.gpu
  unfolding scroll_ready redraw screen_clear
  scroll_ready-ready k =
      draw_rows-ready k.console.rows _ _ 0 (gpu_clear driver 0 k.gpu) ∙ clear-ready k.gpu 0

  pub draw_char-ready :
      (g : Graphics V) (p : Point) (ch : ℕ)
      → gpu_ready driver (gpu_draw_char driver font p ch 1 0xFFFFFFFF g) ≡ gpu_ready driver g
  draw_char-ready g p ch = (draw-Dispatched driver (draw_char font p ch 1 0xFFFFFFFF) g).ready
