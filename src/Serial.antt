-- ===== src/Serial.antt =====
-- kernel/console/serial/uart.c: what the serial port is sent. The state is the list of the bytes
-- that have been written to the data register, and, for the functions that switch them, the
-- interrupts; the wait for the device is left out.
use craybond_os.Base.{
  ℕ, zero, suc, ◌-◌, ◌*◌, ◌+◌, Bool, true, false, not, ◌||◌, ◌==◌, if◌then◌else◌, List, [], ◌∷◌,
  ◌++◌, ltb, shr, bit_and, u8,
}
pub mod Hex
mod Tests

abbrev pub uart_raw_putc : ℕ → List ℕ → List ℕ
uart_raw_putc c out = out ++ (c ∷ [])

-- The text is the list of its bytes; a byte 0 ends it.
unfoldable pub uart_raw_puts : List ℕ → List ℕ → List ℕ
uart_raw_puts [] out = out
uart_raw_puts (c ∷ s) out =
    let rest = uart_raw_puts s (uart_raw_putc c out) in if c == 0 then out else rest

pub record Uart : Type 0 where
  pub sent : List ℕ
  pub interrupts : Bool

abbrev pub raw : (List ℕ → List ℕ) → Uart → Uart
raw f u = record u { sent = f u.sent }

abbrev pub switch_interrupts : Bool → Uart → Uart
switch_interrupts on u = record u { interrupts = on }

pub uart_putc : ℕ → Uart → Uart
uart_putc c u = switch_interrupts true (raw (uart_raw_putc c) (switch_interrupts false u))

pub uart_puts : List ℕ → Uart → Uart
unfolding uart_raw_puts
uart_puts s u = switch_interrupts true (raw (uart_raw_puts s) (switch_interrupts false u))

-- `hex_chars[n]`
abbrev pub hex_chars : ℕ → ℕ
hex_chars n = if ltb n 10 then b'0' + n else b'A' + (n - 10)

-- `for (int i = 60; i >= 0; i -= 4)`: with `suc k` rounds left, `i` is `4 * k`.
pub puthex_loop : ℕ → (value : ℕ) → Bool → Uart → Uart
unfolding uart_putc
puthex_loop zero value started u = u
puthex_loop (suc k) value started u =
    let curr_char = hex_chars (bit_and (shr value (4 * k)) 0xF) in
    let shown = puthex_loop k value true (uart_putc curr_char u) in
    let hidden = puthex_loop k value started u in
    if started || (not (curr_char == b'0') || k == 0) then shown else hidden

unfoldable pub uart_puthex : ℕ → Uart → Uart
unfolding puthex_loop
uart_puthex value u =
    let start = raw (uart_raw_putc b'x') (raw (uart_raw_putc b'0') (switch_interrupts false u)) in
    switch_interrupts true (puthex_loop 16 value false start)
