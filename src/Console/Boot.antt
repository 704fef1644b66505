-- ===== src/Console/Boot.antt =====
-- The first call of the console of kernel/console/kconsole/kconsole.cpp after the graphics have
-- become ready: `check_ready` sets the rows up and clears them.
use native.Mathlib.Nat.{mod-eq_of_lt, mul-le-mul_right}
use craybond_os.Base.{
  ℕ, zero, suc, ◌+◌, ◌*◌, ◌/◌, ◌%◌, ◌^◌, ◌≤◌, ◌<◌, ◌≡◌, refl, true, false, leb, ltb, ◌&&◌,
  if◌then◌else◌, arith, u32, ◌∙◌, List,
}
use craybond_os.Outcome.{done}
use craybond_os.Alloc.{Heap, talloc, update}
use craybond_os.Screen.Gpu.{VirtioGpu, gpu_ready, gpu_clear, gpu_get_screen_size}
use craybond_os.Console.{
  Kernel, blank, blank_rows, link_rows, clear, free_old, resize, check_ready, put_string,
  screen_clear,
}
use craybond_os.Console.Terminal.{type_text, blank_terminal}
use craybond_os.Console.Valid.{
  IsLaid, IsValid, cell_at_lem, ring, ring_small, blank_cell, clear-ready,
}
use craybond_os.Console.Refine.{Shows, Refines, put_chars-Refines}

link_rows_lem :
    (n columns row_data i : ℕ) (buffer : ℕ → ℕ) (j : ℕ)
    → link_rows n columns row_data i buffer j
      ≡ (if leb i j && ltb j (i + n) then row_data + u32 (j * columns) else buffer j)
unfolding link_rows
link_rows_lem zero columns row_data i buffer j = ground arith
link_rows_lem (suc n) columns row_data i buffer j = ground (
  arith,
  link_rows_lem n columns row_data (i + 1) (update buffer i (row_data + u32 (i * columns))) j,
)

-- The rows from `y` on are blanked, whatever the first of them held.
blank_rows_cell :
    (n columns : ℕ) (buffer : ℕ → ℕ) (y : ℕ) (bytes : ℕ → ℕ) (base rows j x : ℕ)
    → ((i : ℕ) → i < rows → buffer i ≡ base + i * columns)
    → y + n ≤ rows
    → x < columns
    → blank_rows n columns buffer y bytes (base + j * columns + x)
      ≡ (if leb y j && ltb j (y + n) then 0 else bytes (base + j * columns + x))
unfolding blank_rows
blank_rows_cell zero columns buffer y bytes base rows j x linked h g = ground arith
blank_rows_cell (suc n) columns buffer y bytes base rows j x linked h g = ground (
  arith,
  linked y (omega arith),
  blank_rows_cell n columns buffer (y + 1) (blank columns (buffer y) 0 bytes) base rows j x linked
      (omega arith) g,
  blank_cell base y j 0 x columns columns bytes (omega arith) g (omega arith),
)

-- The console as `check_ready` leaves it on a screen of `w` by `h` pixels, with its pointers in the
-- block at `p`, its characters in the block at `q` and the heap `g`.
booted : {V : Type 0} → VirtioGpu V → (w h p q : ℕ) → Heap → Kernel V → Kernel V
unfolding clear
booted driver w h p q g k =
    clear driver (λ a b. 0)
      (record k {
        heap = g;
        console = record k.console {
          is_initialized = true;
          columns = w / 8;
          rows = h / 16;
          buffer_header_size = h / 16 * 8;
          buffer_ptr = p;
          buffer_data_size = u32 (h / 16 * (w / 8));
          row_data = q;
          buffer = link_rows (h / 16) (w / 8) q 0 k.console.buffer;
        };
      })

module _ {V : Type 0} (driver : VirtioGpu V) (w h : ℕ) (wide : 8 ≤ w) (high : 16 ≤ h)
    (w_word : w < 2 ^ 32) (h_word : h < 2 ^ 32) (area : h / 16 * (w / 8) < 2 ^ 32) where
  linked_rows :
      (q i : ℕ) (buffer : ℕ → ℕ)
      → i < h / 16
      → link_rows (h / 16) (w / 8) q 0 buffer i ≡ q + i * (w / 8)
  linked_rows q i buffer l = ground (
    arith,
    link_rows_lem (h / 16) (w / 8) q 0 buffer i,
    mul-le-mul_right {m = i} {n = h / 16} (w / 8),
    mod-eq_of_lt {n = i * (w / 8)} {m = 2 ^ 32},
  )

  module _ (p q : ℕ) (g : Heap) (k : Kernel V) where
    booted-IsLaid : IsLaid (booted driver w h p q g k).console
    unfolding booted clear screen_clear
    booted-IsLaid = record {
      some_columns = omega arith;
      some_rows = omega arith;
      few_rows = omega arith;
      few_columns = omega arith;
      offset_within = omega arith;
      linked = λ i l. linked_rows q i k.console.buffer l;
    }

    booted-IsValid : gpu_ready driver k.gpu ≡ true → IsValid driver (booted driver w h p q g k)
    unfolding booted clear screen_clear
    booted-IsValid ready = record {
      console = record {
        initialized = refl;
        laid = booted-IsLaid;
        x_within = omega arith;
        y_within = omega arith;
      };
      ready = clear-ready driver (λ a b. 0) k.gpu 0 ∙ ready;
    }

    booted-Shows :
        Shows
          (booted driver w h p q g k)
          (blank_terminal (w / 8) (h / 16) (gpu_clear driver 0 k.gpu))
    unfolding booted clear screen_clear blank_terminal ring
    booted-Shows = record {
      drawn = refl;
      columns = refl;
      rows = refl;
      x = refl;
      y = refl;
      cells = λ y x l r.
          cell_at_lem (booted driver w h p q g k) y x booted-IsLaid (omega arith)
          ∙ ground (
            arith,
            ring_small 0 y (h / 16) (omega arith) (omega arith),
            blank_rows_cell (h / 16) (w / 8) (link_rows (h / 16) (w / 8) q 0 k.console.buffer) 0
                k.bytes q (h / 16) ((0 + y) % (h / 16)) x
                (λ i l. linked_rows q i k.console.buffer l) (omega arith) r,
          );
    }

  module _ (font : ℕ → ℕ → ℕ) (heap_bottom fuel : ℕ) where
    check_ready-boots :
        (k : Kernel V) {p q : ℕ} {g g' : Heap}
        → gpu_ready driver k.gpu ≡ true
        → k.console.is_initialized ≡ false
        → gpu_get_screen_size driver k.gpu ≡ record { width = w; height = h }
        → talloc heap_bottom fuel (h / 16 * 8) (free_old k.console k.heap) ≡ done (p, g)
        → talloc heap_bottom fuel (u32 (h / 16 * (w / 8))) g ≡ done (q, g')
        → check_ready driver font heap_bottom fuel k ≡ done (true, booted driver w h p q g' k)
    unfolding check_ready resize booted clear screen_clear
    check_ready-boots k ready fresh size first second = rw (ready, fresh, size, first, second) refl

    -- The first `put_string` after the graphics have become ready, on a screen of at least one
    -- character and on a heap that gives the two blocks: it starts from a blank screen with the
    -- cursor in the corner, whatever the memory held, and shows what the terminal shows after the
    -- text.
    pub put_string-boots :
        (str : List ℕ) (k : Kernel V) {p q : ℕ} {g g' : Heap}
        → gpu_ready driver k.gpu ≡ true
        → k.console.is_initialized ≡ false
        → gpu_get_screen_size driver k.gpu ≡ record { width = w; height = h }
        → talloc heap_bottom fuel (h / 16 * 8) (free_old k.console k.heap) ≡ done (p, g)
        → talloc heap_bottom fuel (u32 (h / 16 * (w / 8))) g ≡ done (q, g')
        → Refines driver
            (put_string driver font heap_bottom fuel str k)
            (type_text driver font str (blank_terminal (w / 8) (h / 16) (gpu_clear driver 0 k.gpu)))
    unfolding put_string
    put_string-boots str k {p} {q} {g} {g'} ready fresh size first second =
        rw (check_ready-boots k ready fresh size first second) (
          put_chars-Refines driver font heap_bottom fuel str (booted driver w h p q g' k) _
            (booted-IsValid p q g' k ready) (booted-Shows p q g' k))
