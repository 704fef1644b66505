-- ===== src/Trap.antt =====
-- kernel/exception_handler.c and kernel/process/syscall.c: exceptions, panics and the call that a
-- user process makes. A panic ends in `while (1)`: its result is the state in which it stays. The
-- registers that the handlers read are arguments. A message is the list of its bytes.
use craybond_os.Base.{
  ℕ, ◌+◌, ◌^◌, Bool, true, false, not, ◌==◌, if◌then◌else◌, List, [], ◌∷◌, Option, none, some, u32,
}
use craybond_os.Outcome.{Outcome, done, ◌>>=◌}
use craybond_os.Alloc.{talloc}
use craybond_os.Kstring.{Kstring, string_format_args}
use craybond_os.Screen.Gpu.{Graphics, VirtioGpu, Point, gpu_clear, gpu_draw_string}
use craybond_os.Serial.{Uart, uart_raw_puts, uart_raw_putc, uart_puthex}
use craybond_os.Kio.{Io, with_heap, with_kernel, disable_visual, format_blocks, kprintf_args_raw}
pub mod Report
mod Tests

pub record Trap (V : Type 0) : Type 0 where
  pub io : Io V
  pub panic_triggered : Bool

abbrev pub banner : List ℕ
banner =
    b'*' ∷ b'*' ∷ b'*' ∷ b' ' ∷ b'C' ∷ b'R' ∷ b'A' ∷ b'Y' ∷ b'O' ∷ b'N' ∷ b' ' ∷ b'D' ∷ b'O' ∷ b'E'
    ∷ b'S' ∷ b'N' ∷ 39 ∷ b'T' ∷ b' ' ∷ b'D' ∷ b'R' ∷ b'A' ∷ b'W' ∷ b' ' ∷ b'A' ∷ b'N' ∷ b'Y' ∷ b'M'
    ∷ b'O' ∷ b'R' ∷ b'E' ∷ b' ' ∷ b'*' ∷ b'*' ∷ b'*' ∷ []

abbrev pub halted_text : List ℕ
halted_text =
    b'S' ∷ b'y' ∷ b's' ∷ b't' ∷ b'e' ∷ b'm' ∷ b' ' ∷ b'H' ∷ b'a' ∷ b'l' ∷ b't' ∷ b'e' ∷ b'd' ∷ []

abbrev pub info_text : List ℕ
info_text =
    b'A' ∷ b'd' ∷ b'd' ∷ b'i' ∷ b't' ∷ b'i' ∷ b'o' ∷ b'n' ∷ b'a' ∷ b'l' ∷ b' ' ∷ b'i' ∷ b'n' ∷ b'f'
    ∷ b'o' ∷ b':' ∷ b' ' ∷ []

-- "CRAYON NOT CRAYING\n%s\nSystem Halted", and with the line "Error code: %h".
abbrev pub panic_format : List ℕ
panic_format =
    b'C' ∷ b'R' ∷ b'A' ∷ b'Y' ∷ b'O' ∷ b'N' ∷ b' ' ∷ b'N' ∷ b'O' ∷ b'T' ∷ b' ' ∷ b'C' ∷ b'R' ∷ b'A'
    ∷ b'Y' ∷ b'I' ∷ b'N' ∷ b'G' ∷ b'\n' ∷ b'%' ∷ b's' ∷ b'\n' ∷ b'S' ∷ b'y' ∷ b's' ∷ b't' ∷ b'e'
    ∷ b'm' ∷ b' ' ∷ b'H' ∷ b'a' ∷ b'l' ∷ b't' ∷ b'e' ∷ b'd' ∷ []

abbrev pub panic_info_format : List ℕ
panic_info_format =
    b'C' ∷ b'R' ∷ b'A' ∷ b'Y' ∷ b'O' ∷ b'N' ∷ b' ' ∷ b'N' ∷ b'O' ∷ b'T' ∷ b' ' ∷ b'C' ∷ b'R' ∷ b'A'
    ∷ b'Y' ∷ b'I' ∷ b'N' ∷ b'G' ∷ b'\n' ∷ b'%' ∷ b's' ∷ b'\n' ∷ b'E' ∷ b'r' ∷ b'r' ∷ b'o' ∷ b'r'
    ∷ b' ' ∷ b'c' ∷ b'o' ∷ b'd' ∷ b'e' ∷ b':' ∷ b' ' ∷ b'%' ∷ b'h' ∷ b'\n' ∷ b'S' ∷ b'y' ∷ b's'
    ∷ b't' ∷ b'e' ∷ b'm' ∷ b' ' ∷ b'H' ∷ b'a' ∷ b'l' ∷ b't' ∷ b'e' ∷ b'd' ∷ []

-- "%s \nESR_EL1: %h\nELR_EL1: %h\nFAR_EL1: %h"
abbrev pub exception_format : List ℕ
exception_format =
    b'%' ∷ b's' ∷ b' ' ∷ b'\n' ∷ b'E' ∷ b'S' ∷ b'R' ∷ b'_' ∷ b'E' ∷ b'L' ∷ b'1' ∷ b':' ∷ b' ' ∷ b'%'
    ∷ b'h' ∷ b'\n' ∷ b'E' ∷ b'L' ∷ b'R' ∷ b'_' ∷ b'E' ∷ b'L' ∷ b'1' ∷ b':' ∷ b' ' ∷ b'%' ∷ b'h'
    ∷ b'\n' ∷ b'F' ∷ b'A' ∷ b'R' ∷ b'_' ∷ b'E' ∷ b'L' ∷ b'1' ∷ b':' ∷ b' ' ∷ b'%' ∷ b'h' ∷ []

abbrev pub unexpected_text : List ℕ
unexpected_text =
    b'U' ∷ b'N' ∷ b'E' ∷ b'X' ∷ b'P' ∷ b'E' ∷ b'C' ∷ b'T' ∷ b'E' ∷ b'D' ∷ b' ' ∷ b'E' ∷ b'L' ∷ b'0'
    ∷ b' ' ∷ b'E' ∷ b'X' ∷ b'C' ∷ b'E' ∷ b'P' ∷ b'T' ∷ b'I' ∷ b'O' ∷ b'N' ∷ []

module _ {V : Type 0} where
  pub with_gpu : Io V → Graphics V → Io V
  unfolding with_kernel
  with_gpu io g = with_kernel io (record io.kernel { gpu = g })

  pub send : (List ℕ → List ℕ) → Io V → Io V
  send f io = record io { serial = f io.serial }

  -- A call of a function that also switches the interrupts.
  pub on_uart : (Uart → Uart) → Io V → Io V
  on_uart f io =
      let u = f (record { sent = io.serial; interrupts = io.interrupts }) in
      record io { serial = u.sent; interrupts = u.interrupts }

-- `string_format`, whose block is not given back. A `%s` argument is the text `msg`.
pub string_format :
    {V : Type 0} (heap_bottom fuel : ℕ) (msg fmt args : List ℕ) (count : ℕ)
    → Io V
    → Outcome (Kstring × Io V)
unfolding with_heap
string_format heap_bottom fuel msg fmt args count io = do
  r ← talloc heap_bottom fuel 256 io.kernel.heap
  h ← format_blocks heap_bottom fuel (λ q. msg) args count fmt 0 [] r.1
  done (string_format_args (λ q. msg) fmt args count, with_heap io h)

module _ {V : Type 0} (driver : VirtioGpu V) (font : ℕ → ℕ → ℕ) (heap_bottom fuel : ℕ) where
  pub draw_panic_screen : Kstring → Io V → Io V
  unfolding with_gpu
  draw_panic_screen s io =
      let corner : Point = record { x = 20; y = 20 } in
      with_gpu io
        (gpu_draw_string driver font s corner 3 0xFFFFFFFF (gpu_clear driver 0xFF io.kernel.gpu))

  -- The first panic draws its message; a panic within a panic does not.
  pub show_once : (msg fmt args : List ℕ) (count : ℕ) → Trap V → Outcome (Trap V)
  unfolding string_format draw_panic_screen
  show_once msg fmt args count t =
      let marked = record t { panic_triggered = true } in
      if not t.panic_triggered
      then (string_format heap_bottom fuel msg fmt args count marked.io >>= λ r.
          done (record marked { io = draw_panic_screen r.0 r.1 }))
      else done marked

  pub panic : List ℕ → Trap V → Outcome (Trap V)
  unfolding show_once send
  panic msg t = do
    shown ← show_once msg panic_format (0 ∷ []) 1 t
    let banner_sent = send (uart_raw_puts banner) shown.io
    let sent = send (uart_raw_puts halted_text) (send (uart_raw_puts msg) banner_sent)
    done (record shown { io = sent })

  pub panic_with_info : List ℕ → (info : ℕ) → Trap V → Outcome (Trap V)
  unfolding show_once send on_uart
  panic_with_info msg info t = do
    shown ← show_once msg panic_info_format (0 ∷ info ∷ []) 2 t
    let line = λ (out : List ℕ). uart_raw_putc b'\n' (uart_raw_puts msg (uart_raw_puts banner out))
    let told = on_uart (uart_puthex info) (send (uart_raw_puts info_text) (send line shown.io))
    done (record shown { io = send (uart_raw_puts halted_text) (send (uart_raw_putc b'\n') told) })

  -- `esr`, `elr` and `far` are the system registers.
  pub handle_exception : List ℕ → (esr elr far : ℕ) → Trap V → Outcome (Trap V)
  unfolding string_format panic disable_visual
  handle_exception type esr elr far t = do
    let hidden = disable_visual t.io
    r ← string_format heap_bottom fuel type exception_format (0 ∷ esr ∷ elr ∷ far ∷ []) 4 hidden
    panic r.0.text (record t { io = r.1 })

  -- `x0` is the address of a format and `x1` that of an array of `x2` arguments, the list `args`.
  -- `none` is the end in a panic, `some` the return to the process.
  pub sync_el0_handler_c :
      (mem : ℕ → List ℕ) (x0 : ℕ) (args : List ℕ) (x2 x8 esr elr far : ℕ)
      → Trap V
      → Outcome (Option (Trap V))
  unfolding handle_exception
  sync_el0_handler_c mem x0 args x2 x8 esr elr far t =
      let masked = record t { io = record t.io { interrupts = false } } in
      if x8 == 3
      then (kprintf_args_raw driver font heap_bottom fuel mem (mem x0) args (u32 x2) masked.io
          >>= λ io. done (some (record masked { io = io })))
      else (handle_exception unexpected_text esr elr far masked >>= λ halted. done none)
