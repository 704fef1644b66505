-- ===== src/Console.antt =====
-- kernel/console/kconsole/kconsole.cpp: the console on the screen. A `char**` is the address of a
-- list of row pointers, here the function `buffer` from the row to its pointer; the characters
-- themselves lie in a memory of bytes. The screen is the graphics of Screen.Gpu, with the VirtIO
-- driver and the font as arguments, and the two blocks come from the allocator of Alloc.
use craybond_os.Base.{
  ℕ, zero, suc, ◌+◌, ◌-◌, ◌*◌, ◌/◌, ◌%◌, Bool, true, false, ltb, leb, ◌==◌, if◌then◌else◌, List, [],
  ◌∷◌, u32, add32, sub32,
}
use craybond_os.Outcome.{Outcome, done, ◌>>=◌}
use craybond_os.Alloc.{Heap, talloc, temp_free, update}
use craybond_os.Screen.Gpu.{
  Graphics, VirtioGpu, Size, Point, gpu_ready, gpu_clear, gpu_draw_char, gpu_get_screen_size,
}
pub mod Terminal
pub mod Valid
pub mod Cells
pub mod Picture
pub mod Refine
pub mod Boot
pub mod Tests

abbrev pub char_width : ℕ
char_width = 8

abbrev pub char_height : ℕ
char_height = 16

pub record KernelConsole : Type 0 where
  pub cursor_x : ℕ
  pub cursor_y : ℕ
  pub columns : ℕ
  pub rows : ℕ
  pub is_initialized : Bool
  pub scroll_row_offset : ℕ
  pub buffer : ℕ → ℕ
  pub buffer_ptr : ℕ
  pub row_data : ℕ
  pub buffer_header_size : ℕ
  pub buffer_data_size : ℕ

-- The console, the bytes of the memory, the allocator and the graphics.
pub record Kernel (V : Type 0) : Type 0 where
  pub console : KernelConsole
  pub bytes : ℕ → ℕ
  pub heap : Heap
  pub gpu : Graphics V

-- `for (x = …; x < columns; x++) row[x] = 0`, with the rounds that are left.
pub blank : (rounds row x : ℕ) → (ℕ → ℕ) → ℕ → ℕ
blank zero row x bytes = bytes
blank (suc n) row x bytes = blank n row (x + 1) (update bytes (row + x) 0)

-- The outer loop of `clear`.
pub blank_rows : (rounds columns : ℕ) → (buffer : ℕ → ℕ) → (y : ℕ) → (ℕ → ℕ) → ℕ → ℕ
unfolding blank
blank_rows zero columns buffer y bytes = bytes
blank_rows (suc n) columns buffer y bytes =
    blank_rows n columns buffer (y + 1) (blank columns (buffer y) 0 bytes)

-- The loop of `resize` that sets the row pointers.
pub link_rows : (rounds columns row_data i : ℕ) → (ℕ → ℕ) → ℕ → ℕ
link_rows zero columns row_data i buffer = buffer
link_rows (suc n) columns row_data i buffer =
    link_rows n columns row_data (i + 1) (update buffer i (row_data + u32 (i * columns)))

-- `buffer[(scroll_row_offset + y) % rows]`
pub row_ptr : KernelConsole → ℕ → ℕ
row_ptr c y = c.buffer (add32 c.scroll_row_offset y % c.rows)

-- The body of `newline` before the test for the last row.
pub end_row : {V : Type 0} → Kernel V → Kernel V
unfolding row_ptr blank
end_row k =
    let c = k.console in
    record k {
      bytes = blank (c.columns - c.cursor_x) (row_ptr c c.cursor_y) c.cursor_x k.bytes;
      console = record c { cursor_x = 0; cursor_y = add32 c.cursor_y 1 };
    }

unfoldable pub free_old : KernelConsole → Heap → Heap
free_old c h =
    let h' =
      if ltb 0 c.buffer_header_size then temp_free c.buffer_ptr c.buffer_header_size h else h in
    if ltb 0 c.buffer_data_size then temp_free c.row_data c.buffer_data_size h' else h'

module _ {V : Type 0} (driver : VirtioGpu V) (font : ℕ → ℕ → ℕ) where
  pub screen_clear : Kernel V → Kernel V
  screen_clear k = record k { gpu = gpu_clear driver 0 k.gpu }

  pub clear : Kernel V → Kernel V
  unfolding screen_clear blank_rows
  clear k =
      let c = k.console in
      let k' = screen_clear k in
      record k' {
        bytes = blank_rows c.rows c.columns c.buffer 0 k.bytes;
        console = record c { cursor_x = 0; cursor_y = 0; scroll_row_offset = 0 };
      }

  -- The inner loop of `redraw`.
  pub draw_row : (rounds : ℕ) → KernelConsole → (ℕ → ℕ) → (y x : ℕ) → Graphics V → Graphics V
  unfolding row_ptr
  draw_row zero c bytes y x g = g
  draw_row (suc n) c bytes y x g = draw_row n c bytes y (x + 1) (
      gpu_draw_char driver font (record { x = u32 (x * char_width); y = u32 (y * char_height) })
        (bytes (row_ptr c y + x)) 1 0xFFFFFFFF g)

  pub draw_rows : (rounds : ℕ) → KernelConsole → (ℕ → ℕ) → (y : ℕ) → Graphics V → Graphics V
  unfolding draw_row
  draw_rows zero c bytes y g = g
  draw_rows (suc n) c bytes y g = draw_rows n c bytes (y + 1) (draw_row c.columns c bytes y 0 g)

  pub redraw : Kernel V → Kernel V
  unfolding screen_clear draw_rows
  redraw k =
      let k' = screen_clear k in
      record k' { gpu = draw_rows k.console.rows k.console k.bytes 0 k'.gpu }

  -- What `scroll` does once the console is ready.
  pub scroll_ready : Kernel V → Kernel V
  unfolding redraw blank
  scroll_ready k =
      let c = k.console in
      let c' = record c { scroll_row_offset = (c.scroll_row_offset + 1) % c.rows } in
      let last = c.buffer (sub32 (add32 c'.scroll_row_offset c.rows) 1 % c.rows) in
      redraw (record k { console = c'; bytes = blank c.columns last 0 k.bytes })

  -- The character is stored and drawn at the cursor.
  pub store_char : ℕ → Kernel V → Kernel V
  unfolding row_ptr
  store_char ch k =
      let c = k.console in
      record k {
        bytes = update k.bytes (row_ptr c c.cursor_y + c.cursor_x) ch;
        gpu =
            gpu_draw_char driver font
              (record { x = u32 (c.cursor_x * char_width); y = u32 (c.cursor_y * char_height) }) ch
              1 0xFFFFFFFF k.gpu;
        console = record c { cursor_x = add32 c.cursor_x 1 };
      }

module _ {V : Type 0} (driver : VirtioGpu V) (font : ℕ → ℕ → ℕ) (heap_bottom fuel : ℕ) where
  pub resize : Kernel V → Outcome (Kernel V)
  unfolding free_old link_rows
  resize k = do
    let c = k.console
    let screen = gpu_get_screen_size driver k.gpu
    let columns = screen.width / char_width
    let rows = screen.height / char_height
    r ← talloc heap_bottom fuel (rows * 8) (free_old c k.heap)
    s ← talloc heap_bottom fuel (u32 (rows * columns)) r.1
    done (record k {
      heap = s.1;
      console = record c {
        columns = columns;
        rows = rows;
        buffer_header_size = rows * 8;
        buffer_ptr = r.0;
        buffer_data_size = u32 (rows * columns);
        row_data = s.0;
        buffer = link_rows rows columns s.0 0 c.buffer;
      };
    })

  -- The constructor, on an object of zeros.
  pub kernel_console : Kernel V → Outcome (Kernel V)
  unfolding resize clear
  kernel_console k = do
    k' ← resize (record k {
      console = record k.console { cursor_x = 0; cursor_y = 0; scroll_row_offset = 0 };
    })
    done (clear driver font k')

  pub check_ready : Kernel V → Outcome (Bool × Kernel V)
  unfolding resize clear
  check_ready k =
      if gpu_ready driver k.gpu
      then if k.console.is_initialized
        then done (true, k)
        else (resize (record k { console = record k.console { is_initialized = true } }) >>= λ k'.
            done (true, clear driver font k'))
      else done (false, k)

  pub scroll : Kernel V → Outcome (Kernel V)
  unfolding check_ready scroll_ready
  scroll k = do r ← check_ready k; done (if r.0 then scroll_ready driver font r.1 else r.1)

  pub newline_ready : Kernel V → Outcome (Kernel V)
  unfolding end_row scroll
  newline_ready k =
      let k' = end_row k in
      if leb k'.console.rows k'.console.cursor_y
      then (scroll k' >>= λ s.
          done (record s { console = record s.console { cursor_y = sub32 s.console.rows 1 } }))
      else done k'

  pub newline : Kernel V → Outcome (Kernel V)
  unfolding check_ready newline_ready
  newline k = do r ← check_ready k; if r.0 then newline_ready r.1 else done r.1

  pub put_char_ready : ℕ → Kernel V → Outcome (Kernel V)
  unfolding newline store_char
  put_char_ready ch k =
      if ch == b'\n'
      then newline k
      else ((if leb k.console.columns k.console.cursor_x then newline k else done k) >>= λ s.
          done (store_char driver font ch s))

  pub put_char : ℕ → Kernel V → Outcome (Kernel V)
  unfolding check_ready put_char_ready
  put_char ch k = do r ← check_ready k; if r.0 then put_char_ready ch r.1 else done r.1

  -- The loop of `put_string` over the bytes of the text, up to the byte 0 or the end.
  pub put_chars : List ℕ → Kernel V → Outcome (Kernel V)
  unfolding put_char
  put_chars [] k = done k
  put_chars (ch ∷ str) k = if ch == 0 then done k else (put_char ch k >>= λ s. put_chars str s)

  pub put_string : List ℕ → Kernel V → Outcome (Kernel V)
  unfolding check_ready put_chars
  put_string str k = do r ← check_ready k; if r.0 then put_chars str r.1 else done r.1
