-- ===== src/Console/Tests.antt =====
-- Runs of the console of kernel/console/kconsole/kconsole.cpp on a screen of two rows with two
-- columns.
use craybond_os.Base.{ℕ, ◌+◌, ◌*◌, ◌≡◌, refl, true, false, ◌∷◌, [], arith, u32, ◌/◌}
use craybond_os.Outcome.{done}
use craybond_os.Alloc.{talloc, find_block, bump_temp, align_up}
use craybond_os.Screen.{Rfb}
use craybond_os.Screen.Gpu.{VirtioGpu, virtio_gpu_pci, gpu_ready}
use craybond_os.Console.{KernelConsole, Kernel, free_old, put_string}
use craybond_os.Console.Terminal.{Terminal, type_text}
use craybond_os.Console.Valid.{IsValid, cell_at}
use craybond_os.Console.Refine.{Shows, Refines, put_string-Refines}

-- A driver that counts the characters that it is to draw.
abbrev pub counting : VirtioGpu ℕ
counting = record {
  vgp_init = λ w h v. (true, v);
  vgp_flush = λ v. v;
  vgp_clear = λ c v. 0;
  vgp_draw_pixel = λ x y c v. v;
  vgp_fill_rect = λ x y w h c v. v;
  vgp_draw_line = λ x y a b c v. v;
  vgp_draw_char = λ x y c color v. v + 1;
}

abbrev pub no_rfb : Rfb
no_rfb = record { width = 0; height = 0; stride = 0; bpp = 0; fb_ptr = 0; fb = λ i. 0 }

abbrev pub small_console : KernelConsole
small_console = record {
  cursor_x = 1;
  cursor_y = 1;
  columns = 2;
  rows = 2;
  is_initialized = true;
  scroll_row_offset = 1;
  buffer = λ i. 0x2000 + i * 2;
  buffer_ptr = 0x1000;
  row_data = 0x2000;
  buffer_header_size = 16;
  buffer_data_size = 4;
}

abbrev pub small_kernel : Kernel ℕ
small_kernel = record {
  console = small_console;
  bytes = λ a. b'.';
  heap = record {
    mem = λ p. 0;
    temp_free_list = 0;
    next_free_temp = 0x3000;
    next_free_perm = 0x900000;
  };
  gpu = record {
    screen_size = record { width = 16; height = 32 };
    is_ready = true;
    chosen_gpu = virtio_gpu_pci;
    virtio = 0;
    rfb = no_rfb;
  };
}

abbrev pub small_terminal : Terminal ℕ
small_terminal = record {
  columns = 2;
  rows = 2;
  x = 1;
  y = 1;
  cell = λ y x. b'.';
  gpu = small_kernel.gpu;
}

pub small_kernel-IsValid : IsValid counting small_kernel
unfolding gpu_ready
small_kernel-IsValid = record {
  console = record {
    initialized = refl;
    laid = record {
      some_columns = omega arith;
      some_rows = omega arith;
      few_rows = omega arith;
      few_columns = omega arith;
      offset_within = omega arith;
      linked = λ i h. refl;
    };
    x_within = omega arith;
    y_within = omega arith;
  };
  ready = refl;
}

pub small_kernel-Shows : Shows small_kernel small_terminal
unfolding cell_at
small_kernel-Shows = record {
  drawn = refl;
  columns = refl;
  rows = refl;
  x = refl;
  y = refl;
  cells = λ y x h g. refl;
}

put_string-Refines_example :
    Refines counting
      (put_string counting (λ c y. 0) 0x1000 9 (b'a' ∷ b'b' ∷ 10 ∷ b'c' ∷ []) small_kernel)
      (type_text counting (λ c y. 0) (b'a' ∷ b'b' ∷ 10 ∷ b'c' ∷ []) small_terminal)
put_string-Refines_example =
    put_string-Refines counting (λ c y. 0) 0x1000 9 (b'a' ∷ b'b' ∷ 10 ∷ b'c' ∷ []) small_kernel
      small_terminal small_kernel-IsValid small_kernel-Shows

abbrev pub fresh_kernel : Kernel ℕ
fresh_kernel = record small_kernel {
  console = record small_console {
    is_initialized = false;
    buffer_header_size = 0;
    buffer_data_size = 0;
  };
}

-- Both blocks come from the free space, a page each.
first_block :
    talloc 0x1000 9 (32 / 16 * 8) (free_old fresh_kernel.console fresh_kernel.heap)
    ≡ done (0x3000, record fresh_kernel.heap { next_free_temp = 0x4000 })
unfolding talloc find_block bump_temp align_up free_old
first_block = refl

second_block :
    talloc 0x1000 9
      (u32 (32 / 16 * (16 / 8)))
      (record fresh_kernel.heap { next_free_temp = 0x4000 })
    ≡ done (0x4000, record fresh_kernel.heap { next_free_temp = 0x5000 })
unfolding talloc find_block bump_temp align_up
second_block = refl

-- The console behind the text of the first example: the second row holds the last character.
type_text_test :
    let t = type_text counting (λ c y. 0) (b'a' ∷ b'b' ∷ 10 ∷ b'c' ∷ []) small_terminal in
    (t.x ≡ 1) × (t.y ≡ 1) × (t.cell 0 0 ≡ b'b') × (t.cell 1 0 ≡ b'c')
unfolding type_text
type_text_test = (refl, refl, refl, refl)
