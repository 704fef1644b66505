-- ===== src/Boot/Tests.antt =====
-- The process of kernel/kernel_processes/bootscreen.c on a fresh heap.
use craybond_os.Base.{ℕ, ◌≡◌, refl, true, [], arith}
use craybond_os.Outcome.{panic, failed_to_load}
use craybond_os.Alloc.{talloc, find_block, bump_temp, align_up}
use craybond_os.Console.Tests.{counting, small_kernel}
use craybond_os.Screen.Gpu.{Point}
use craybond_os.Boot.{Boot, heap_of, abs, lerp, rotate, sweep, bootscreen}
use craybond_os.Boot.Sweep.{Gives, Returns, bootscreen_panics}

abbrev fresh : Boot ℕ
fresh = record {
  io = record { kernel = small_kernel; serial = []; use_visual = true; interrupts = true };
  random_number = 0;
}

abbrev middle : Point
middle = record { x = 512; y = 384 }

fresh-Gives : Gives counting (λ c y. 0) (λ p. []) 16 0x1000 8 (heap_of fresh)
unfolding talloc find_block bump_temp align_up heap_of
fresh-Gives = record {
  block = 0x3000;
  rest = record small_kernel.heap { next_free_temp = 0x4000 };
  not_null = omega arith;
  given = refl;
}

bootscreen_panics_example :
    Returns counting
      (λ c y. 0)
      (λ p. [])
      16
      0x1000
      8
      100
      (sweep counting (λ c y. 0) (λ p. []) 16 0x1000 9 100 middle 0 (135, 0xFFFFFF79) fresh)
    × (sweep counting (λ c y. 0) (λ p. []) 16 0x1000 9 101 middle 0 (135, 0xFFFFFF79) fresh
        ≡ panic failed_to_load 0x12345)
    × (bootscreen counting (λ c y. 0) (λ p. []) 16 0x1000 9 1 fresh ≡ panic failed_to_load 0x12345)
bootscreen_panics_example =
    bootscreen_panics counting (λ c y. 0) (λ p. []) 16 0x1000 8 100 0 middle 0 (135, 0xFFFFFF79)
      fresh (omega arith) refl fresh-Gives

-- -3 and 3, by their bits; the first step of the rotation from (140, -140).
signed_test :
    (abs 0xFFFFFFFD ≡ 3) × (lerp 5 10 3 ≡ 5) × (rotate (135, 0xFFFFFF79) ≡ (131, 0xFFFFFF76))
unfolding abs lerp rotate
signed_test = (refl, refl, refl)
