-- ===== src/Alloc/Align.antt =====
-- The page rounding of kernel/ram_e.c as arithmetic.
use craybond_os.Base.{ℕ, ◌+◌, ◌-◌, ◌*◌, ◌/◌, ◌%◌, ◌^◌, ◌≤◌, ◌<◌, ◌≡◌, arith, bit_and_field, ◌∙◌}
use craybond_os.Alloc.{align_up}

-- Where the sum does not wrap, `align_up` is the next multiple of the page size.
pub align_up_lem : (n : ℕ) → n ≤ 2 ^ 64 - 0x1000 → align_up n ≡ (n + 0xFFF) / 0x1000 * 0x1000
unfolding align_up
align_up_lem n h = bit_and_field 52 12 ((n + 0xFFF) % 2 ^ 64) ∙ omega arith

-- It is a multiple of the page size, not below its argument and less than a page above it.
pub align_up_bounds :
    (n : ℕ)
    → n ≤ 2 ^ 64 - 0x1000
    → (align_up n % 0x1000 ≡ 0) × (n ≤ align_up n) × (align_up n < n + 0x1000)
align_up_bounds n h = omega (arith, align_up_lem n h)

-- Above that the sum wraps, and the result is 0.
pub align_up_wraps : (n : ℕ) → 2 ^ 64 - 0x1000 < n → n < 2 ^ 64 → align_up n ≡ 0
unfolding align_up
align_up_wraps n lo hi = bit_and_field 52 12 ((n + 0xFFF) % 2 ^ 64) ∙ omega arith
