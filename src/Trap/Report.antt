-- ===== src/Trap/Report.antt =====
-- What a panic of kernel/exception_handler.c reports, and the call of a user process that prints
-- (kernel/process/syscall.c).
use mathlib.Core.List.{append_assoc, append-nil}
use craybond_os.Base.{
  ℕ, ◌≡◌, refl, ◌⊎◌, inl, inr, Bool, true, false, List, [], ◌∷◌, ◌++◌, ◌∙◌, ap, Bool-cases, sym,
}
use craybond_os.Outcome.{Outcome, done}
use craybond_os.Alloc.{Heap, talloc}
use craybond_os.Kstring.{Kstring, string_from_hex, string_format_args}
use craybond_os.Screen.Gpu.{VirtioGpu, gpu_clear, gpu_draw_string}
use craybond_os.Console.{Kernel}
use craybond_os.Serial.{Uart, uart_raw_puts, uart_raw_putc, uart_puthex}
use craybond_os.Serial.Hex.{uart_puthex-string_from_hex}
use craybond_os.Console.Terminal.{Terminal}
use craybond_os.Kio.{with_heap, format_blocks}
use craybond_os.Kio.Print.{c_text, uart_raw_puts_lem}
use craybond_os.Trap.{
  Trap, on_uart, banner, halted_text, info_text, panic_info_format, send, string_format,
  draw_panic_screen, show_once, panic_with_info,
}

-- The bytes that `panic_with_info` sends.
pub report : (msg : List ℕ) (info : ℕ) → List ℕ
report msg info =
    banner
    ++ (c_text msg
        ++ (b'\n' ∷ (info_text ++ ((string_from_hex info).text ++ (b'\n' ∷ halted_text)))))

-- The same, as `panic_with_info` sends them one after another.
sent_bytes : (msg : List ℕ) (info : ℕ) → (b : Bool) → List ℕ → List ℕ
sent_bytes msg info b out =
    let line = uart_raw_putc b'\n' (uart_raw_puts msg (uart_raw_puts banner out)) in
    let u : Uart = record { sent = uart_raw_puts info_text line; interrupts = b } in
    uart_raw_puts halted_text (uart_raw_putc b'\n' (uart_puthex info u).sent)

sent_bytes_lem :
    (msg : List ℕ) (info : ℕ) (b : Bool) (out : List ℕ)
    → sent_bytes msg info b out ≡ out ++ report msg info
unfolding sent_bytes report
sent_bytes_lem msg info b out = simp (uart_raw_puts_lem, uart_puthex-string_from_hex, append_assoc)

clash {ℓ} : {A : Type ℓ} {b : Bool} → b ≡ false → b ≡ true → A
clash e f = cc

-- The allocator gives the blocks that the text of a panic takes.
pub record GivesText (heap_bottom fuel : ℕ) (msg fmt args : List ℕ) (count : ℕ) (h : Heap)
    : Type 0 where
  pub block : ℕ
  pub first : Heap
  pub last : Heap
  pub given : talloc heap_bottom fuel 256 h ≡ done (block, first)
  pub formatted : format_blocks heap_bottom fuel (λ q. msg) args count fmt 0 [] first ≡ done last

module _ {V : Type 0} (driver : VirtioGpu V) (font : ℕ → ℕ → ℕ) (heap_bottom fuel : ℕ) where
  -- What a panic leaves of the console, the memory and the graphics. The first clears the screen
  -- and draws its text; a panic within a panic leaves all alone.
  pub data Drawn (text : Kstring) (t : Trap V) (k : Kernel V) : Type 0 where
    first :
        (last : Heap)
        → t.panic_triggered ≡ false
        → k ≡ record t.io.kernel {
          heap = last;
          gpu =
              gpu_draw_string driver font text
                (record { x = 20; y = 20 })
                3
                0xFFFFFFFF
                (gpu_clear driver 0xFF t.io.kernel.gpu);
        }
        → Drawn text t k
    again : t.panic_triggered ≡ true → k ≡ t.io.kernel → Drawn text t k

  -- The panic has come to its end. It has sent the bytes `out`, and the interrupts are `on`.
  pub record Reported (text : Kstring) (t : Trap V) (o : Outcome (Trap V)) (out : List ℕ)
      (on : Bool) : Type 0 where
    pub after : Trap V
    pub result : o ≡ done after
    pub serial : after.io.serial ≡ t.io.serial ++ out
    pub triggered : after.panic_triggered ≡ true
    pub interrupts : after.io.interrupts ≡ on
    pub drawn : Drawn text t after.io.kernel

  blocks_of :
      (t : Trap V) (msg fmt args : List ℕ) (count : ℕ)
      → t.panic_triggered ≡ false
      → (t.panic_triggered ≡ true) ⊎ GivesText heap_bottom fuel msg fmt args count t.io.kernel.heap
      → GivesText heap_bottom fuel msg fmt args count t.io.kernel.heap
  blocks_of t msg fmt args count e (inl f) = clash e f
  blocks_of t msg fmt args count e (inr g) = g

  show_once-Reported :
      (msg fmt args : List ℕ) (count : ℕ) (t : Trap V)
      → (t.panic_triggered ≡ true) ⊎ GivesText heap_bottom fuel msg fmt args count t.io.kernel.heap
      → Reported
          (string_format_args (λ q. msg) fmt args count)
          t
          (show_once driver font heap_bottom fuel msg fmt args count t)
          []
          t.io.interrupts
  unfolding show_once string_format draw_panic_screen
  show_once-Reported msg fmt args count t k = elim (Bool-cases t.panic_triggered) [
    | inl e ↦ record {
      after = record t { panic_triggered = true };
      result = rw e refl;
      serial = sym (append-nil t.io.serial);
      triggered = refl;
      interrupts = refl;
      drawn = again e refl;
    }
    | inr e ↦
        let g = blocks_of t msg fmt args count e k in
        let text = string_format_args (λ q. msg) fmt args count in
        record {
          after = record t {
            panic_triggered = true;
            io = draw_panic_screen driver font heap_bottom fuel text (with_heap t.io g.last);
          };
          result = rw (e, g.given, g.formatted) refl;
          serial = sym (append-nil t.io.serial);
          triggered = refl;
          interrupts = refl;
          drawn = first g.last e refl;
        }
  ]

  -- If the allocator gives the blocks for its text, the first panic clears the screen and draws
  -- that text, at (20, 20) and three times as large; a panic within a panic allocates and draws
  -- nothing. Either sends the banner, its message up to the first byte 0, the number in hexadecimal
  -- and "System Halted" over the serial port, and leaves the interrupts enabled, whatever they were
  -- before.
  pub panic_with_info-Reported :
      (msg : List ℕ) (info : ℕ) (t : Trap V)
      → (t.panic_triggered ≡ true)
        ⊎ GivesText heap_bottom fuel msg panic_info_format (0 ∷ info ∷ []) 2 t.io.kernel.heap
      → Reported
          (string_format_args (λ q. msg) panic_info_format (0 ∷ info ∷ []) 2)
          t
          (panic_with_info driver font heap_bottom fuel msg info t)
          (report msg info)
          true
  unfolding panic_with_info report send on_uart sent_bytes uart_raw_puts uart_puthex
  panic_with_info-Reported msg info t k =
      let shown = show_once-Reported msg panic_info_format (0 ∷ info ∷ []) 2 t k in
      let io = shown.after.io in
      record {
        after = record shown.after {
          io = record io {
            serial = sent_bytes msg info io.interrupts io.serial;
            interrupts = true;
          };
        };
        result = rw shown.result refl;
        serial =
            sent_bytes_lem msg info io.interrupts io.serial
            ∙ ap (λ l. l ++ report msg info) (shown.serial ∙ append-nil t.io.serial);
        triggered = shown.triggered;
        interrupts = refl;
        drawn = shown.drawn;
      }
