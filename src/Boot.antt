-- ===== src/Boot.antt =====
-- kernel/kernel_processes/bootscreen.c: the process that draws the boot screen. An `int` is held by
-- its bits. The driver, the font, the bytes at an address, and the value that `gpu_get_char_size`
-- leaves when it has no `return`, are arguments. The loops that only wait are left out. The name is
-- drawn with the graphics and in blocks of the allocator, which are those of the console.
use craybond_os.Base.{
  ℕ, zero, suc, ◌+◌, ◌-◌, ◌*◌, ◌/◌, ◌%◌, ◌^◌, Bool, true, false, ltb, leb, ◌==◌, if◌then◌else◌,
  List, [], ◌∷◌, Option, none, some, u32, u64, add32, sub32, add64,
}
use craybond_os.Outcome.{Outcome, done, panic, out_of_fuel, failed_to_load, ◌>>=◌}
use craybond_os.Alloc.{Heap, talloc, temp_free}
use craybond_os.Kstring.{string_format_args}
use craybond_os.Screen.Gpu.{
  Graphics, VirtioGpu, Size, Point, gpu_clear, gpu_draw_pixel, gpu_fill_rect, gpu_draw_string,
  gpu_get_char_size, gpu_get_screen_size,
}
use craybond_os.Console.{Kernel}
use craybond_os.Kio.{Io, with_heap, with_kernel, disable_visual, format_blocks}
pub mod Sweep
mod Tests

-- `a < b` and `a / 1024` of two `int`.
unfoldable pub int_less : ℕ → ℕ → Bool
int_less a b = ltb (add32 a (2 ^ 31)) (add32 b (2 ^ 31))

unfoldable pub int_div_1024 : ℕ → ℕ
int_div_1024 n = if ltb n (2 ^ 31) then n / 1024 else sub32 0 ((2 ^ 32 - n) / 1024)

unfoldable pub abs : ℕ → ℕ
unfolding int_less
abs n = if int_less n 0 then sub32 0 n else n

unfoldable pub lerp : (step a b : ℕ) → ℕ
unfolding int_less
lerp step a b = add32 a (u32 (step * (if int_less a b then 1 else 2 ^ 32 - 1)))

-- One step of the fixed-point rotation, on the bits of `x` and `y`.
unfoldable pub rotate : ℕ × ℕ → ℕ × ℕ
unfolding int_div_1024
rotate (x, y) = (
  int_div_1024 (add32 (u32 (x * 1023)) (u32 (y * 27))),
  int_div_1024 (sub32 (u32 (y * 1023)) (u32 (x * 27))),
)

-- The texts and the number that the process counts.
pub record Boot (V : Type 0) : Type 0 where
  pub io : Io V
  pub random_number : ℕ

-- "Craybond OS - Crayons are for losers - %i%"
abbrev pub name : List ℕ
name =
    b'C' ∷ b'r' ∷ b'a' ∷ b'y' ∷ b'b' ∷ b'o' ∷ b'n' ∷ b'd' ∷ b' ' ∷ b'O' ∷ b'S' ∷ b' ' ∷ b'-' ∷ b' '
    ∷ b'C' ∷ b'r' ∷ b'a' ∷ b'y' ∷ b'o' ∷ b'n' ∷ b's' ∷ b' ' ∷ b'a' ∷ b'r' ∷ b'e' ∷ b' ' ∷ b'f'
    ∷ b'o' ∷ b'r' ∷ b' ' ∷ b'l' ∷ b'o' ∷ b's' ∷ b'e' ∷ b'r' ∷ b's' ∷ b' ' ∷ b'-' ∷ b' ' ∷ b'%'
    ∷ b'i' ∷ b'%' ∷ []

abbrev pub value_or : ℕ → Option ℕ → ℕ
value_or d none = d
value_or d (some n) = n

-- `xo, yo` of `boot_draw_name`, for a text of `len` characters.
pub name_place : Point → (char_size len xoffset yoffset : ℕ) → Point
name_place middle char_size len xoffset yoffset =
    let x = add32 (sub32 middle.x (u32 (len / 2 * char_size))) xoffset in
    let y = add32 middle.y yoffset in record { x = x; y = y }

module _ {V : Type 0} where
  with_gpu : Boot V → Graphics V → Boot V
  unfolding with_kernel
  with_gpu b g = record b { io = with_kernel b.io (record b.io.kernel { gpu = g }) }

  pub heap_of : Boot V → Heap
  heap_of b = b.io.kernel.heap

module _ {V : Type 0} (driver : VirtioGpu V) (font : ℕ → ℕ → ℕ) (mem : ℕ → List ℕ)
    (unset heap_bottom fuel : ℕ) where
  -- The text is drawn, and its block `p` given back to the heap `h`.
  pub name_drawn : Point → (xoffset yoffset p : ℕ) → Heap → Boot V → Boot V
  unfolding name_place with_gpu with_heap
  name_drawn middle xoffset yoffset p h b =
      let g = b.io.kernel.gpu in
      let s = string_format_args mem name (b.random_number ∷ []) 1 in
      let char_size = value_or unset (gpu_get_char_size driver font 2 g) in
      let place = name_place middle char_size s.len xoffset yoffset in
      let box : Size = record { width = u32 (char_size * s.len); height = char_size } in
      let drawn =
        gpu_draw_string driver font s place 2 0xFFFFFF (gpu_fill_rect driver place box 0 g) in
      with_gpu (record b { io = with_heap b.io (temp_free p 256 h) }) drawn

  pub boot_draw_name : Point → (xoffset yoffset : ℕ) → Boot V → Outcome (Boot V)
  unfolding name_drawn heap_of
  boot_draw_name middle xoffset yoffset b = do
    r ← talloc heap_bottom fuel 256 (heap_of b)
    h ← format_blocks heap_bottom fuel mem (b.random_number ∷ []) 1 name 0 [] r.1
    done (name_drawn middle xoffset yoffset r.0 h b)

  -- The body of the two loops over the brush.
  pub brush_point : Point → (below bx by : ℕ) → Point → Boot V → Outcome (Boot V)
  unfolding with_gpu
  brush_point middle below bx by current b =
      let pixel : Point = record { x = add32 current.x bx; y = add32 current.y by } in
      let painted = with_gpu b (gpu_draw_pixel driver pixel 0xFF4500 b.io.kernel.gpu) in
      let inside = leb (add32 (u32 (bx * bx)) (u32 (by * by))) 25 in
      boot_draw_name middle 0 below (if inside then painted else b)

  pub brush_column : (rounds : ℕ) → Point → (below bx by : ℕ) → Point → Boot V → Outcome (Boot V)
  brush_column zero middle below bx by current b = done b
  brush_column (suc n) middle below bx by current b =
      brush_point middle below bx by current b >>= λ c.
      brush_column n middle below bx (add32 by 1) current c

  pub brush : (rounds : ℕ) → Point → (below bx : ℕ) → Point → Boot V → Outcome (Boot V)
  brush zero middle below bx current b = done b
  brush (suc n) middle below bx current b =
      brush_column 11 middle below bx (2 ^ 32 - 5) current b >>= λ c.
      brush n middle below (add32 bx 1) current c

  -- `randomNumber += 1` and the test.
  pub count : Boot V → Outcome (Boot V)
  count b =
      let n = add64 b.random_number 1 in
      if ltb 100 n then panic failed_to_load 0x12345 else done (record b { random_number = n })

  -- `for (int i = 0; i < 180; i++)`
  pub sweep : (rounds : ℕ) → Point → (below : ℕ) → (at : ℕ × ℕ) → Boot V → Outcome (Boot V)
  sweep zero middle below at b = done b
  sweep (suc n) middle below at b =
      let current : Point = record { x = add32 middle.x at.0; y = add32 middle.y at.1 } in
      brush 11 middle below (2 ^ 32 - 5) current b >>= λ c.
      count c >>= λ d. sweep n middle below (rotate at) d

  -- One round of `while (1)`.
  pub frame : Boot V → Outcome (Boot V)
  unfolding with_gpu
  frame b =
      let cleared = with_gpu b (gpu_clear driver 0 b.io.kernel.gpu) in
      let size = gpu_get_screen_size driver cleared.io.kernel.gpu in
      let radius = size.height / 4 in
      let x = int_div_1024 (u32 (radius * 724)) in
      let y = int_div_1024 (u32 (radius * (2 ^ 32 - 724))) in
      sweep 180 (record { x = size.width / 2; y = size.height / 2 })
        (add32 (add32 10 (size.height / 3)) 10) (x, y) cleared

  pub frames : ℕ → Boot V → Outcome (Boot V)
  frames zero b = out_of_fuel
  frames (suc n) b = frame b >>= λ c. frames n c

  pub bootscreen : ℕ → Boot V → Outcome (Boot V)
  unfolding disable_visual
  bootscreen rounds b = frames rounds (record b { io = disable_visual b.io })
