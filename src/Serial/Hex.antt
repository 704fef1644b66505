-- ===== src/Serial/Hex.antt =====
-- `uart_puthex` of kernel/console/serial/uart.c, beside `string_from_hex` of kernel/kstring.c.
use mathlib.Core.List.{append_assoc}
use craybond_os.Base.{
  ℕ, zero, suc, ◌*◌, ◌≡◌, refl, Bool, true, false, not, ◌||◌, ◌==◌, List, [], ◌∷◌, ◌++◌, shr,
  bit_and, Bool-cases, inl, inr, ◌∙◌, ap,
}
use craybond_os.Kstring.{hex_loop, hex_char, string_from_hex}
use craybond_os.Serial.{Uart, puthex_loop, uart_puthex, uart_putc}

left_false : (a b : Bool) → (a || b) ≡ false → a ≡ false
left_false true b e = e
left_false false b e = refl

puthex_loop-hex_loop :
    (k value : ℕ) (started b : Bool) (out buf : List ℕ)
    → (puthex_loop k value started (record { sent = out ++ buf; interrupts = b })).sent
      ≡ out ++ hex_loop k value started buf
unfolding puthex_loop hex_loop hex_char uart_putc
puthex_loop-hex_loop zero value started b out buf = refl
puthex_loop-hex_loop (suc k) value started b out buf =
    let c = hex_char (bit_and (shr value (4 * k)) 0xF) in
    elim (Bool-cases (started || (not (c == b'0') || k == 0))) [
      | inl t ↦ rw t (
          ap
            (λ (l : List ℕ).
              (puthex_loop k value true (record { sent = l; interrupts = true })).sent)
            (append_assoc out buf (c ∷ []))
          ∙ puthex_loop-hex_loop k value true true out (buf ++ (c ∷ [])))
      | inr f ↦ rw f (
          ap (λ t. (puthex_loop k value t (record { sent = out ++ buf; interrupts = b })).sent)
            (left_false started (not (c == b'0') || k == 0) f)
          ∙ puthex_loop-hex_loop k value false b out buf)
    ]

-- `uart_puthex` sends the text of `string_from_hex`.
pub uart_puthex-string_from_hex :
    (value : ℕ) (u : Uart) → (uart_puthex value u).sent ≡ u.sent ++ (string_from_hex value).text
unfolding uart_puthex string_from_hex
uart_puthex-string_from_hex value u =
    ap (λ (l : List ℕ). (puthex_loop 16 value false (record { sent = l; interrupts = false })).sent)
      (append_assoc u.sent (b'0' ∷ []) (b'x' ∷ []))
    ∙ puthex_loop-hex_loop 16 value false false u.sent (b'0' ∷ b'x' ∷ [])
