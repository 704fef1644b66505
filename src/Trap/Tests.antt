-- ===== src/Trap/Tests.antt =====
-- Panics of kernel/exception_handler.c and a call of a user process (kernel/process/syscall.c).
use craybond_os.Base.{ℕ, refl, true, false, inr, List, [], ◌∷◌}
use craybond_os.Alloc.{temp_free, Heap, talloc, find_block, bump_temp, align_up}
use craybond_os.Kstring.{append_str, append_max, string_from_hex, put_directive, string_format_args}
use craybond_os.Console.Tests.{counting, small_kernel}
use craybond_os.Kio.{Io, format_blocks}
use craybond_os.Trap.{panic_info_format, Trap, panic_with_info}
use craybond_os.Trap.Report.{GivesText}
use craybond_os.Trap.Report.{Reported, report, panic_with_info-Reported}

abbrev small_io : Io ℕ
small_io = record { kernel = small_kernel; serial = []; use_visual = true; interrupts = true }

abbrev calm : Trap ℕ
calm = record { io = small_io; panic_triggered = false }

abbrev after_buffer : Heap
after_buffer = record small_kernel.heap { next_free_temp = 0x4000 }

-- The block of the number's text is given back.
after_text : Heap
after_text = temp_free 0x4000 18 (record after_buffer { next_free_temp = 0x5000 })

gives_text :
    GivesText 0x1000 9 (b'n' ∷ b'o' ∷ []) panic_info_format (0 ∷ 0x12345 ∷ []) 2 small_kernel.heap
unfolding format_blocks put_directive append_str append_max string_from_hex talloc find_block
    bump_temp align_up after_text
gives_text = record {
  block = 0x3000;
  first = after_buffer;
  last = after_text;
  given = refl;
  formatted = refl;
}

panic_with_info-Reported_example :
    Reported counting
      (λ c y. 0)
      0x1000
      9
      (string_format_args (λ q. b'n' ∷ b'o' ∷ []) panic_info_format (0 ∷ 0x12345 ∷ []) 2)
      calm
      (panic_with_info counting (λ c y. 0) 0x1000 9 (b'n' ∷ b'o' ∷ []) 0x12345 calm)
      (report (b'n' ∷ b'o' ∷ []) 0x12345)
      true
panic_with_info-Reported_example =
    panic_with_info-Reported counting (λ c y. 0) 0x1000 9 (b'n' ∷ b'o' ∷ []) 0x12345 calm
      (inr gives_text)

-- The process asks for "i%i" with the argument 7.
abbrev user_text : ℕ → List ℕ
user_text p = b'i' ∷ b'%' ∷ b'i' ∷ []
