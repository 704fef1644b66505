-- ===== src/Kio/Print.antt =====
-- What kernel/console/kio.c prints, on the serial port and on the screen.
use mathlib.Core.List.{append_assoc, append-nil}
use craybond_os.Base.{
  ℕ, ◌≡◌, refl, true, false, ◌==◌, if◌then◌else◌, List, [], ◌∷◌, ◌++◌, Bool-cases, inl, inr, ◌∙◌,
  ap, sym,
}
use craybond_os.Outcome.{Outcome, done}
use craybond_os.Alloc.{Heap, talloc, temp_free}
use craybond_os.Kstring.{string_format_args}
use craybond_os.Screen.Gpu.{VirtioGpu}
use craybond_os.Serial.{uart_raw_puts, uart_raw_putc}
use craybond_os.Console.{Kernel}
use craybond_os.Console.Terminal.{Terminal, type_char, type_text}
use craybond_os.Console.Valid.{IsValid, cell_at}
use craybond_os.Console.Refine.{Shows, put_char-Refines, put_string-Refines}
use craybond_os.Kio.{
  Io, with_kernel, with_heap, puts, putc, kconsole_puts, kconsole_putc, format_blocks,
  kprintf_args_raw, kprintf_args,
}

-- The bytes of a text before its terminator.
abbrev pub c_text : List ℕ → List ℕ
c_text [] = []
c_text (c ∷ s) = let rest = c ∷ c_text s in if c == 0 then [] else rest

pub uart_raw_puts_lem : (s out : List ℕ) → uart_raw_puts s out ≡ out ++ c_text s
unfolding uart_raw_puts
uart_raw_puts_lem [] out = sym (append-nil out)
uart_raw_puts_lem (c ∷ s) out = elim (Bool-cases (c == 0)) [
  | inl stop ↦ rw stop (sym (append-nil out))
  | inr more ↦
      rw more (uart_raw_puts_lem s (out ++ (c ∷ [])) ∙ append_assoc out (c ∷ []) (c_text s))
]

module _ {V : Type 0} where
  heap_IsValid :
      (driver : VirtioGpu V) (k : Kernel V) (h : Heap)
      → IsValid driver k
      → IsValid driver (record k { heap = h })
  heap_IsValid driver k h v = record { console = v.console; ready = v.ready }

  heap_Shows :
      (k : Kernel V) (t : Terminal V) (h : Heap) → Shows k t → Shows (record k { heap = h }) t
  unfolding cell_at
  heap_Shows k t h s = record {
    drawn = s.drawn;
    columns = s.columns;
    rows = s.rows;
    x = s.x;
    y = s.y;
    cells = s.cells;
  }

-- The call has come to an end. It has sent the bytes `out` and left the screen showing `t`.
pub record Printed {V : Type 0} (driver : VirtioGpu V) (io : Io V) (o : Outcome (Io V))
    (out : List ℕ) (t : Terminal V) : Type 0 where
  pub after : Io V
  pub result : o ≡ done after
  pub serial : after.serial ≡ io.serial ++ out
  pub use_visual : after.use_visual ≡ io.use_visual
  pub valid : IsValid driver after.kernel
  pub shows : Shows after.kernel t

module _ {V : Type 0} (driver : VirtioGpu V) (font : ℕ → ℕ → ℕ) (heap_bottom fuel : ℕ) where
  pub puts-Printed :
      (s : List ℕ) (io : Io V) (t : Terminal V)
      → IsValid driver io.kernel
      → Shows io.kernel t
      → io.use_visual ≡ true
      → Printed driver io
          (puts driver font heap_bottom fuel s io)
          (c_text s)
          (type_text driver font s t)
  unfolding puts kconsole_puts with_kernel
  puts-Printed s io t v w visual =
      let r = put_string-Refines driver font heap_bottom fuel s io.kernel t v w in
      record {
        after = record io { serial = uart_raw_puts s io.serial; kernel = r.kernel };
        result = rw (visual, r.result) refl;
        serial = uart_raw_puts_lem s io.serial;
        use_visual = refl;
        valid = r.valid;
        shows = r.shows;
      }

  putc-Printed :
      (c : ℕ) (io : Io V) (t : Terminal V)
      → IsValid driver io.kernel
      → Shows io.kernel t
      → io.use_visual ≡ true
      → Printed driver io
          (putc driver font heap_bottom fuel c io)
          (c ∷ [])
          (type_char driver font c t)
  unfolding putc kconsole_putc with_kernel
  putc-Printed c io t v w visual =
      let r = put_char-Refines driver font heap_bottom fuel c io.kernel t v w in
      record {
        after = record io { serial = uart_raw_putc c io.serial; kernel = r.kernel };
        result = rw (visual, r.result) refl;
        serial = refl;
        use_visual = refl;
        valid = r.valid;
        shows = r.shows;
      }

  -- With the console in use, and on a heap that gives the blocks: the text up to its first byte 0
  -- and a line feed, on the serial port and on the screen.
  pub kprintf_args_raw-Printed :
      (mem : ℕ → List ℕ) (fmt args : List ℕ) (count : ℕ) (io : Io V) (t : Terminal V) {p : ℕ}
      {g h : Heap}
      → IsValid driver io.kernel
      → Shows io.kernel t
      → io.use_visual ≡ true
      → talloc heap_bottom fuel 256 io.kernel.heap ≡ done (p, g)
      → format_blocks heap_bottom fuel mem args count fmt 0 [] g ≡ done h
      → let text = (string_format_args mem fmt args count).text in
        Printed driver io
          (kprintf_args_raw driver font heap_bottom fuel mem fmt args count io)
          (c_text text ++ (b'\n' ∷ []))
          (type_char driver font b'\n' (type_text driver font text t))
  unfolding kprintf_args_raw with_heap
  kprintf_args_raw-Printed mem fmt args count io t {p} {g} {h} v w visual block blocks =
      let text = (string_format_args mem fmt args count).text in
      let shown =
        puts-Printed text (with_heap io h) t (heap_IsValid driver io.kernel h v)
          (heap_Shows io.kernel t h w) visual in
      let ended =
        putc-Printed b'\n' shown.after (type_text driver font text t) shown.valid shown.shows
          (shown.use_visual ∙ visual) in
      let heap = temp_free p 256 ended.after.kernel.heap in
      record {
        after = with_heap ended.after heap;
        result = rw (block, blocks, shown.result, ended.result) refl;
        serial =
            ended.serial
            ∙ ap (λ l. l ++ (b'\n' ∷ [])) shown.serial
            ∙ append_assoc io.serial (c_text text) (b'\n' ∷ []);
        use_visual = ended.use_visual ∙ shown.use_visual;
        valid = heap_IsValid driver ended.after.kernel heap ended.valid;
        shows = heap_Shows ended.after.kernel _ heap ended.shows;
      }

  -- With the console in use, and on a heap that gives the blocks, `kprintf_args` sends the
  -- formatted text up to its first byte 0 and a line feed over the serial port, does to the screen
  -- what the terminal does on the text and the line feed, and ends with the interrupts enabled,
  -- whether they were before or not.
  pub kprintf_args-Printed :
      (mem : ℕ → List ℕ) (fmt args : List ℕ) (count : ℕ) (io : Io V) (t : Terminal V) {p : ℕ}
      {g h : Heap}
      → IsValid driver io.kernel
      → Shows io.kernel t
      → io.use_visual ≡ true
      → talloc heap_bottom fuel 256 io.kernel.heap ≡ done (p, g)
      → format_blocks heap_bottom fuel mem args count fmt 0 [] g ≡ done h
      → let text = (string_format_args mem fmt args count).text in
        (r : Printed driver io
          (kprintf_args driver font heap_bottom fuel mem fmt args count io)
          (c_text text ++ (b'\n' ∷ []))
          (type_char driver font b'\n' (type_text driver font text t)))
        × (r.after.interrupts ≡ true)
  unfolding kprintf_args
  kprintf_args-Printed mem fmt args count io t v w visual block blocks =
      let raw =
        kprintf_args_raw-Printed mem fmt args count (record io { interrupts = false }) t v w visual
          block blocks in
      (
        record {
          after = record raw.after { interrupts = true };
          result = rw raw.result refl;
          serial = raw.serial;
          use_visual = raw.use_visual;
          valid = raw.valid;
          shows = raw.shows;
        },
        refl,
      )
