-- ===== src/Screen.antt =====
-- kernel/graph/drivers/ramfb_driver/ramfb_driver.c: drawing into a frame buffer of 32-bit pixels.
-- `fb` holds the pixels by their index from `fb_ptr`. An `int` is held by its 32 bits.
use craybond_os.Base.{
  ℕ, zero, suc, ◌+◌, ◌-◌, ◌*◌, ◌/◌, ◌%◌, ◌^◌, Bool, true, false, ltb, leb, ◌==◌, not, ◌&&◌, ◌||◌,
  if◌then◌else◌, List, [], ◌∷◌, u8, u32, u64, add32, sub32, bit_and, bit_or, shr, shl32,
}
use craybond_os.Outcome.{Outcome, done, ◌>>=◌}
use craybond_os.Alloc.{Heap, palloc}
use craybond_os.Kstring.{Kstring, char_at}
pub mod Pixel
pub mod Rect
pub mod Line
pub mod Glyph
pub mod Gpu
pub mod Driver
mod Tests

pub record Rfb : Type 0 where
  pub fb_ptr : ℕ
  pub width : ℕ
  pub height : ℕ
  pub bpp : ℕ
  pub stride : ℕ
  pub fb : ℕ → ℕ

-- `fb[i] = color`
abbrev pub set_pixel : ℕ → ℕ → Rfb → Rfb
set_pixel i color s = record s { fb = λ j. if j == i then color else s.fb j }

-- The loop of `rfb_clear`, with the rounds left.
pub clear_loop : ℕ → ℕ → ℕ → Rfb → Rfb
clear_loop zero i color s = s
clear_loop (suc n) i color s = clear_loop n (i + 1) color (set_pixel i color s)

pub rfb_clear : ℕ → Rfb → Rfb
unfolding clear_loop
rfb_clear color s = clear_loop (u32 (s.width * s.height)) 0 color s

pub rfb_draw_pixel : (x y color : ℕ) → Rfb → Rfb
rfb_draw_pixel x y color s =
    if leb s.width x || leb s.height y then s else set_pixel (u32 (y * (s.stride / 4) + x)) color s

-- The inner loop of `rfb_fill_rect`, over `dx`, and the outer one, over `dy`.
pub fill_row : ℕ → (dx x y color : ℕ) → Rfb → Rfb
unfolding rfb_draw_pixel
fill_row zero dx x y color s = s
fill_row (suc n) dx x y color s =
    fill_row n (dx + 1) x y color (rfb_draw_pixel (add32 x dx) y color s)

pub fill_rows : ℕ → (dy x y w color : ℕ) → Rfb → Rfb
unfolding fill_row
fill_rows zero dy x y w color s = s
fill_rows (suc n) dy x y w color s =
    fill_rows n (dy + 1) x y w color (fill_row w 0 x (add32 y dy) color s)

pub rfb_fill_rect : (x y w h color : ℕ) → Rfb → Rfb
unfolding fill_rows
rfb_fill_rect x y w h color s = fill_rows h 0 x y w color s

-- `a < b` on the bits of two ints.
abbrev pub slt : ℕ → ℕ → Bool
slt a b = ltb (add32 a (2 ^ 31)) (add32 b (2 ^ 31))

abbrev pub distance : ℕ → ℕ → ℕ
distance a b = if ltb a b then b - a else a - b

-- Where the line stands: the point and the error term.
pub record Pen : Type 0 where
  pub x : ℕ
  pub y : ℕ
  pub err : ℕ

-- How the loop of `rfb_draw_line` ends: with `true` by its `break`, with `false` if it is still
-- running after as many rounds as the fuel says.
pub line_step : (dx dy sx sy : ℕ) → Pen → Pen
line_step dx dy sx sy p =
    let e2 = p.err in
    let go_x = slt (sub32 0 dx) e2 in
    let go_y = slt e2 dy in
    let err = if go_x then sub32 e2 dy else e2 in
    record {
      x = if go_x then add32 p.x sx else p.x;
      y = if go_y then add32 p.y sy else p.y;
      err = if go_y then add32 err dx else err;
    }

pub line_loop : ℕ → (dx dy sx sy x1 y1 color : ℕ) → Pen → Rfb → Rfb × Bool
unfolding line_step
line_loop zero dx dy sx sy x1 y1 color p s = (s, false)
line_loop (suc fuel) dx dy sx sy x1 y1 color p s =
    let s' = rfb_draw_pixel p.x p.y color s in
    let rest = line_loop fuel dx dy sx sy x1 y1 color (line_step dx dy sx sy p) s' in
    if p.x == x1 && p.y == y1 then (s', true) else rest

-- The direction of a step, 1 or -1.
abbrev pub sign : ℕ → ℕ → ℕ
sign a b = if ltb a b then 1 else 2 ^ 32 - 1

-- `(dx > dy ? dx : -dy) / 2`, for distances below 2 ^ 31; the division rounds towards 0.
abbrev pub first_err : ℕ → ℕ → ℕ
first_err dx dy = if ltb dy dx then dx / 2 else sub32 0 (dy / 2)

pub rfb_draw_line : ℕ → (x0 y0 x1 y1 color : ℕ) → Rfb → Rfb × Bool
unfolding line_loop
rfb_draw_line fuel x0 y0 x1 y1 color s =
    let dx = distance x0 x1 in
    let dy = distance y0 y1 in
    line_loop fuel dx dy (sign x0 x1) (sign y0 y1) x1 y1 color
      (record { x = x0; y = y0; err = first_err dx dy }) s

-- The rows of the 128 glyphs of kernel/graph/font8x8_basic.h are the argument `font`.
module _ (font : ℕ → ℕ → ℕ) where
  pub glyph_row : ℕ → (col x y bits scale color : ℕ) → Rfb → Rfb
  glyph_row zero col x y bits scale color s = s
  glyph_row (suc n) col x y bits scale color s =
      let s' =
        if bit_and bits (2 ^ (7 - col / scale)) == 0
        then s
        else rfb_draw_pixel (add32 x col) y color s in
      glyph_row n (col + 1) x y bits scale color s'

  pub glyph_rows : ℕ → (row x y c scale color : ℕ) → Rfb → Rfb
  unfolding glyph_row
  glyph_rows zero row x y c scale color s = s
  glyph_rows (suc n) row x y c scale color s =
      let s' = glyph_row (u32 (8 * scale)) 0 x (add32 y row) (font c (row / scale)) scale color s in
      glyph_rows n (row + 1) x y c scale color s'

  pub rfb_draw_char : (x y c scale color : ℕ) → Rfb → Rfb
  unfolding glyph_rows
  rfb_draw_char x y c scale color s = glyph_rows (u32 (8 * scale)) 0 x y (u8 c) scale color s

  abbrev pub rfb_get_char_size : ℕ → ℕ
  rfb_get_char_size scale = u32 (8 * scale)

  -- The loop of `rfb_draw_string`, with the characters left; `i` is the index of the first.
  pub string_loop : ℕ → (i : ℕ) → Kstring → (xoff x0 y0 scale color : ℕ) → Rfb → Rfb
  string_loop zero i str xoff x0 y0 scale color s = s
  string_loop (suc n) i str xoff x0 y0 scale color s =
      let c = char_at str.text i in
      let size = rfb_get_char_size scale in
      let newline = string_loop n (i + 1) str 0 x0 (add32 y0 (size + 2)) scale color s in
      let other =
        string_loop n (i + 1) str (add32 xoff 1) x0 y0 scale color
          (rfb_draw_char (add32 x0 (xoff * size)) y0 c scale color s) in
      if c == 10 then newline else other

  pub rfb_draw_string : Kstring → (x0 y0 scale color : ℕ) → Rfb → Rfb
  unfolding string_loop
  rfb_draw_string str x0 y0 scale color s = string_loop str.len 0 str 0 x0 y0 scale color s

pub rfb_flush : Rfb → Rfb
rfb_flush s = s
