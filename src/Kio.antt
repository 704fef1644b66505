-- ===== src/Kio.antt =====
-- kernel/console/kio.c and kernel/console/kconsole/console.cpp: output to the serial port and to
-- the console. `puts` and `putc` write to both; `kprintf_args` formats the text first, in a block
-- of the allocator that the console shares. The bytes at an address that `%s` is given are an
-- argument.
use craybond_os.Base.{
  ℕ, zero, suc, ◌+◌, Bool, true, false, not, ltb, leb, ◌==◌, ◌&&◌, if◌then◌else◌, List, [], ◌∷◌,
  ◌++◌, length, get_or,
}
use craybond_os.Outcome.{Outcome, done, ◌>>=◌}
use craybond_os.Alloc.{Heap, talloc, temp_free}
use craybond_os.Kstring.{string_format_args, put_directive, takes_arg}
use craybond_os.Screen.Gpu.{VirtioGpu}
use craybond_os.Serial.{uart_raw_puts, uart_raw_putc}
use craybond_os.Console.{Kernel, put_char, put_string, clear}
pub mod Print
mod Tests

pub record Io (V : Type 0) : Type 0 where
  pub kernel : Kernel V
  pub serial : List ℕ
  pub use_visual : Bool
  pub interrupts : Bool

module _ {V : Type 0} where
  unfoldable pub disable_visual : Io V → Io V
  disable_visual io = record io { use_visual = false }

  unfoldable pub enable_visual : Io V → Io V
  enable_visual io = record io { use_visual = true }

  unfoldable pub with_kernel : Io V → Kernel V → Io V
  with_kernel io k = record io { kernel = k }

  unfoldable pub with_heap : Io V → Heap → Io V
  with_heap io h = record io { kernel = record io.kernel { heap = h } }

module _ (heap_bottom fuel : ℕ) where
  -- The block of `string_from_hex`, which is given back after the copy.
  unfoldable pub hex_block : Heap → Outcome Heap
  hex_block h = talloc heap_bottom fuel 18 h >>= λ r. done (temp_free r.0 18 r.1)

  -- The blocks that the loop of `string_format_args` takes, one for each `%h` that it reaches.
  unfoldable pub format_blocks :
      (mem : ℕ → List ℕ) (args : List ℕ) (count : ℕ)
      → List ℕ
      → (idx : ℕ) → (buf : List ℕ) → Heap
      → Outcome Heap
  unfolding hex_block
  format_blocks mem args count [] idx buf h = done h
  format_blocks mem args count (c ∷ []) idx buf h = done h
  format_blocks mem args count (c ∷ d ∷ rest) idx buf h =
      let plain = format_blocks mem args count (d ∷ rest) idx (buf ++ (c ∷ [])) h in
      let next = λ (g : Heap).
        format_blocks mem args count rest (if takes_arg d then idx + 1 else idx)
          (put_directive mem d (get_or args idx 0) buf) g in
      if not (c == 0) && ltb (length buf) 255
      then if c == b'%' && not (d == 0)
        then if leb count idx
          then done h
          else ((if d == b'h' then hex_block h else done h) >>= next)
        else plain
      else done h

module _ {V : Type 0} (driver : VirtioGpu V) (font : ℕ → ℕ → ℕ) (heap_bottom fuel : ℕ) where
  pub kconsole_putc : ℕ → Kernel V → Outcome (Kernel V)
  kconsole_putc c k = put_char driver font heap_bottom fuel c k

  pub kconsole_puts : List ℕ → Kernel V → Outcome (Kernel V)
  kconsole_puts s k = put_string driver font heap_bottom fuel s k

  pub kconsole_clear : Kernel V → Kernel V
  kconsole_clear k = clear driver font k

  pub puts : List ℕ → Io V → Outcome (Io V)
  unfolding kconsole_puts with_kernel
  puts s io =
      let sent = record io { serial = uart_raw_puts s io.serial } in
      if sent.use_visual
      then (kconsole_puts s sent.kernel >>= λ k. done (with_kernel sent k))
      else done sent

  pub putc : ℕ → Io V → Outcome (Io V)
  unfolding kconsole_putc with_kernel
  putc c io =
      let sent = record io { serial = uart_raw_putc c io.serial } in
      if sent.use_visual
      then (kconsole_putc c sent.kernel >>= λ k. done (with_kernel sent k))
      else done sent

  pub kprintf_args_raw : (mem : ℕ → List ℕ) (fmt args : List ℕ) (count : ℕ) → Io V → Outcome (Io V)
  unfolding format_blocks puts putc with_heap
  kprintf_args_raw mem fmt args count io = do
    r ← talloc heap_bottom fuel 256 io.kernel.heap
    h ← format_blocks heap_bottom fuel mem args count fmt 0 [] r.1
    let text = (string_format_args mem fmt args count).text
    shown ← puts text (with_heap io h)
    ended ← putc b'\n' shown
    done (with_heap ended (temp_free r.0 256 ended.kernel.heap))

  -- With the interrupts disabled meanwhile.
  pub kprintf_args : (mem : ℕ → List ℕ) (fmt args : List ℕ) (count : ℕ) → Io V → Outcome (Io V)
  unfolding kprintf_args_raw
  kprintf_args mem fmt args count io =
      kprintf_args_raw mem fmt args count (record io { interrupts = false }) >>= λ printed.
      done (record printed { interrupts = true })
