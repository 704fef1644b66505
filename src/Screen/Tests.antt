-- ===== src/Screen/Tests.antt =====
-- Runs of kernel/graph/graphics.c and kernel/graph/drivers/ramfb_driver/ramfb_driver.c on a screen
-- of 4 by 3 pixels.
use craybond_os.Base.{ℕ, ◌+◌, ◌-◌, ◌^◌, ◌≡◌, refl, true, false, arith}
use craybond_os.Outcome.{Ensures}
use craybond_os.Alloc.{Heap}
use craybond_os.Screen.{Rfb, rfb_draw_line, rfb_draw_char}
use craybond_os.Screen.Pixel.{IsScreen, Painted}
use craybond_os.Screen.Line.{rfb_draw_line-ends}
use craybond_os.Screen.Glyph.{is_lit, rfb_draw_char-Painted}
use craybond_os.Screen.Driver.{Initialised, rfb_init, rfb_init-Initialised}
use craybond_os.Screen.Gpu.{no_gpu, ramfb, Graphics, VirtioGpu, Drawing, draw_pixel}

abbrev small : Rfb
small = record { fb_ptr = 0x5000; width = 4; height = 3; bpp = 4; stride = 16; fb = λ i. 0 }

small-IsScreen : IsScreen small
small-IsScreen = record { packed = refl; small = omega arith }

rfb_draw_line-ends_example : (rfb_draw_line 4 0 2 3 0 7 small).1 ≡ true
rfb_draw_line-ends_example =
    rfb_draw_line-ends 0 2 3 0 (omega arith) (omega arith) (omega arith) (omega arith) (omega arith)
      (omega arith) 4 7 small (omega arith) (omega arith)

-- A font whose glyphs are all a diagonal.
abbrev diagonal : ℕ → ℕ → ℕ
diagonal c row = 2 ^ (7 - row)

rfb_draw_char-Painted_example :
    Painted small (is_lit diagonal 0 0 65 1) 7 (rfb_draw_char diagonal 0 0 65 1 7 small)
rfb_draw_char-Painted_example =
    rfb_draw_char-Painted diagonal 0 0 65 1 7 small small-IsScreen (omega arith) (omega arith)
      (omega arith) (omega arith)

abbrev heap : Heap
heap = record {
  mem = λ p. 0;
  temp_free_list = 0;
  next_free_temp = 0x41000000;
  next_free_perm = 0x41600000;
}

rfb_init-Initialised_example :
    Ensures (Initialised 0x41000000 1024 768 heap) (rfb_init 0x41000000 0x25 1024 768 small heap)
rfb_init-Initialised_example =
    rfb_init-Initialised 0x41000000 0x25 1024 768 small heap
      (record { on_page = refl; not_null = omega arith; low = omega arith }) (omega arith)
      (omega arith) (omega arith) (omega arith) (omega arith)

-- A VirtIO driver that finds no device and counts the calls of its functions.
abbrev absent : VirtioGpu ℕ
absent = record {
  vgp_init = λ w h v. (false, v + 1);
  vgp_flush = λ v. v + 1;
  vgp_clear = λ c v. v + 1;
  vgp_draw_pixel = λ x y c v. v + 1;
  vgp_fill_rect = λ x y w h c v. v + 1;
  vgp_draw_line = λ x0 y0 x1 y1 c v. v + 1;
  vgp_draw_char = λ x y c color v. v + 1;
}

abbrev fresh : Graphics ℕ
fresh = record {
  screen_size = record { width = 0; height = 0 };
  is_ready = false;
  chosen_gpu = no_gpu;
  virtio = 0;
  rfb = small;
}

abbrev started : Graphics ℕ
started = record fresh { is_ready = true; chosen_gpu = ramfb }

abbrev dot : Drawing
dot = draw_pixel (record { x = 1; y = 2 }) 7
