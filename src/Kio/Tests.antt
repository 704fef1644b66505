-- ===== src/Kio/Tests.antt =====
-- A run of `kprintf_args` (kernel/console/kio.c) with a number in hexadecimal.
use craybond_os.Base.{ℕ, ◌≡◌, refl, true, false, List, [], ◌∷◌, ◌++◌}
use craybond_os.Outcome.{done}
use craybond_os.Alloc.{Heap, talloc, temp_free, find_block, bump_temp, align_up}
use craybond_os.Kstring.{string_format_args}
use craybond_os.Console.Terminal.{type_char, type_text}
use craybond_os.Console.Tests.{
  counting, small_kernel, small_terminal, small_kernel-IsValid, small_kernel-Shows,
}
use craybond_os.Kio.{Io, format_blocks, kprintf_args}
use craybond_os.Kio.Print.{c_text, Printed, kprintf_args-Printed}

abbrev small_io : Io ℕ
small_io = record { kernel = small_kernel; serial = []; use_visual = true; interrupts = false }

abbrev after_buffer : Heap
after_buffer = record small_kernel.heap { next_free_temp = 0x4000 }

buffer_block : talloc 0x1000 9 256 small_kernel.heap ≡ done (0x3000, after_buffer)
unfolding talloc find_block bump_temp align_up
buffer_block = refl

hex_blocks :
    format_blocks 0x1000 9 (λ p. []) (255 ∷ []) 1 (b'h' ∷ b'%' ∷ b'h' ∷ []) 0 [] after_buffer
    ≡ done (temp_free 0x4000 18 (record after_buffer { next_free_temp = 0x5000 }))
unfolding format_blocks talloc find_block bump_temp align_up
hex_blocks = refl

kprintf_args-Printed_example :
    let fmt : List ℕ = b'h' ∷ b'%' ∷ b'h' ∷ [] in
    let text = (string_format_args (λ p. []) fmt (255 ∷ []) 1).text in
    (r : Printed counting small_io
      (kprintf_args counting (λ c y. 0) 0x1000 9 (λ p. []) fmt (255 ∷ []) 1 small_io)
      (c_text text ++ (b'\n' ∷ []))
      (type_char counting (λ c y. 0) b'\n' (type_text counting (λ c y. 0) text small_terminal)))
    × (r.after.interrupts ≡ true)
kprintf_args-Printed_example =
    kprintf_args-Printed counting (λ c y. 0) 0x1000 9 (λ p. []) (b'h' ∷ b'%' ∷ b'h' ∷ []) (255 ∷ [])
      1 small_io small_terminal small_kernel-IsValid small_kernel-Shows refl buffer_block hex_blocks
