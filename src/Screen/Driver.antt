-- ===== src/Screen/Driver.antt =====
-- `rfb_init` of kernel/graph/drivers/ramfb_driver/ramfb_driver.c: the frame buffer and the
-- description of it that the firmware gets. The selector of the firmware's file "etc/ramfb" is an
-- argument, and what `fw_cfg_dma_write` sends is part of the result.
use craybond_os.Base.{
  ℕ, ◌+◌, ◌*◌, ◌/◌, ◌%◌, ◌^◌, ◌≤◌, ◌<◌, ◌≡◌, ◌≢◌, refl, Bool, true, false, ◌==◌, if◌then◌else◌,
  Option, none, some, arith, u32, ==_ne, ◌∙◌, ap₂,
}
use craybond_os.Outcome.{Outcome, done, ◌>>=◌, Ensures, returns, panics}
use craybond_os.Alloc.{Heap, palloc, heap_limit}
use craybond_os.Alloc.Temp.{IsLayout}
use craybond_os.Alloc.Perm.{PallocResult, got, full, palloc-PallocResult}
use craybond_os.Screen.{Rfb}
use craybond_os.Screen.Pixel.{IsScreen}

pub record FbStructure : Type 0 where
  pub addr : ℕ
  pub fourcc : ℕ
  pub flags : ℕ
  pub width : ℕ
  pub height : ℕ
  pub stride : ℕ

-- `__builtin_bswap32` and `__builtin_bswap64`
abbrev pub bswap32 : ℕ → ℕ
bswap32 n =
    n % 2 ^ 8 * 2 ^ 24
    + n / 2 ^ 8 % 2 ^ 8 * 2 ^ 16
    + n / 2 ^ 16 % 2 ^ 8 * 2 ^ 8
    + n / 2 ^ 24 % 2 ^ 8

abbrev pub bswap64 : ℕ → ℕ
bswap64 n = bswap32 (n % 2 ^ 32) * 2 ^ 32 + bswap32 (n / 2 ^ 32 % 2 ^ 32)

-- 'X', 'R', '2' and '4', the first in the lowest byte.
abbrev pub rgb_format : ℕ
rgb_format = b'X' + b'R' * 2 ^ 8 + b'2' * 2 ^ 16 + b'4' * 2 ^ 24

abbrev pub sized : (w h : ℕ) → Rfb → Rfb
sized w h s = record s { width = w; height = h; bpp = 4; stride = u32 (4 * w) }

pub rfb_init :
    (heap_bottom selector w h : ℕ) → Rfb → Heap → Outcome (Bool × Rfb × Heap × Option FbStructure)
rfb_init heap_bottom selector w h s heap =
    if selector == 0
    then done (false, sized w h s, heap, none)
    else palloc heap_bottom (u32 (w * h * 4)) heap >>= λ (fb_ptr, heap1).
        let fb : FbStructure = record {
          addr = bswap64 fb_ptr;
          fourcc = bswap32 rgb_format;
          flags = bswap32 0;
          width = bswap32 w;
          height = bswap32 h;
          stride = bswap32 (u32 (4 * w));
        } in
        done (true, record (sized w h s) { fb_ptr = fb_ptr }, heap1, some fb)

-- The frame buffer is set up, all its pixels lie in the heap above the old bump pointer, and the
-- firmware, which reads its numbers from the other end, is told where it is and how large.
pub record Initialised (heap_bottom w h : ℕ) (heap : Heap)
    (r : Bool × Rfb × Heap × Option FbStructure) : Type 0 where
  pub fb : FbStructure
  pub success : r.0 ≡ true
  pub told : r.3 ≡ some fb
  pub screen : IsScreen r.1
  pub above : heap.next_free_perm ≤ r.1.fb_ptr
  pub inside : r.1.fb_ptr + r.1.width * r.1.height * 4 ≤ r.2.next_free_perm
  pub in_heap : r.2.next_free_perm ≤ heap_limit heap_bottom
  pub told_addr : bswap64 fb.addr ≡ r.1.fb_ptr
  pub told_width : bswap32 fb.width ≡ w
  pub told_height : bswap32 fb.height ≡ h
  pub told_stride : bswap32 fb.stride ≡ r.1.stride

swap_twice : (n : ℕ) → n < 2 ^ 32 → bswap32 (bswap32 n) ≡ n
swap_twice n less = omega arith

swap_fits : (n : ℕ) → bswap32 n < 2 ^ 32
swap_fits n = omega arith

swap64_halves :
    (a b : ℕ) → a < 2 ^ 32 → b < 2 ^ 32 → bswap64 (a * 2 ^ 32 + b) ≡ bswap32 b * 2 ^ 32 + bswap32 a
swap64_halves a b p q =
    let low : (a * 2 ^ 32 + b) % 2 ^ 32 ≡ b = omega arith in
    let high : (a * 2 ^ 32 + b) / 2 ^ 32 % 2 ^ 32 ≡ a = omega arith in
    ap₂ (λ x y. bswap32 x * 2 ^ 32 + bswap32 y) low high

swap64_twice : (n : ℕ) → n < 2 ^ 64 → bswap64 (bswap64 n) ≡ n
swap64_twice n less =
    swap64_halves (bswap32 (n % 2 ^ 32)) (bswap32 (n / 2 ^ 32 % 2 ^ 32)) (swap_fits (n % 2 ^ 32))
      (swap_fits (n / 2 ^ 32 % 2 ^ 32))
    ∙ ap₂ (λ x y. x * 2 ^ 32 + y) (swap_twice (n / 2 ^ 32 % 2 ^ 32) (omega arith))
        (swap_twice (n % 2 ^ 32) (omega arith))
    ∙ omega arith

-- With a heap below 2 ^ 48, the file at hand, and a frame buffer of fewer than 2 ^ 32 bytes,
-- `rfb_init` ends: it panics for lack of memory, or it succeeds, with a frame buffer all of whose
-- pixels lie in memory that `palloc` has just reserved, and tells the firmware its address, size
-- and stride.
pub rfb_init-Initialised :
    (hb selector w h : ℕ) (s : Rfb) (heap : Heap)
    → IsLayout hb
    → heap.next_free_perm ≤ heap_limit hb
    → selector ≢ 0
    → w < 2 ^ 30
    → h < 2 ^ 32
    → w * h * 4 < 2 ^ 32
    → Ensures (Initialised hb w h heap) (rfb_init hb selector w h s heap)
unfolding rfb_init
rfb_init-Initialised hb selector w h s heap lay below ne narrow low small =
    let size : u32 (w * h * 4) ≡ w * h * 4 = omega arith in
    rw (==_ne selector 0 ne, size)
      (finish (palloc-PallocResult hb lay (w * h * 4) heap (omega arith) below))
  where
    finish :
        {r : Outcome (ℕ × Heap)}
        → PallocResult hb (w * h * 4) heap r
        → Ensures (Initialised hb w h heap) (
            r >>= λ (fb_ptr, heap1).
            let fb : FbStructure = record {
              addr = bswap64 fb_ptr;
              fourcc = bswap32 rgb_format;
              flags = bswap32 0;
              width = bswap32 w;
              height = bswap32 h;
              stride = bswap32 (u32 (4 * w));
            } in
            done (true, record (sized w h s) { fb_ptr = fb_ptr }, heap1, some fb))
    finish (full over) = panics
    finish (got a eq page above larger room) = returns (record {
      fb = record {
        addr = bswap64 a;
        fourcc = bswap32 rgb_format;
        flags = bswap32 0;
        width = bswap32 w;
        height = bswap32 h;
        stride = bswap32 (u32 (4 * w));
      };
      success = refl;
      told = refl;
      screen = record { packed = omega arith; small = small };
      above = above;
      inside = omega arith;
      in_heap = room;
      told_addr = swap64_twice a (omega (arith, lay.low));
      told_width = swap_twice w (omega arith);
      told_height = swap_twice h low;
      told_stride = swap_twice (u32 (4 * w)) (omega arith);
    })
