-- ===== src/Paging/Entry.antt =====
-- The entries that the map functions of kernel/mmu.c and kernel/process/proc_allocator.c write.
use craybond_os.Base.{
  ℕ, ◌+◌, ◌*◌, ◌/◌, ◌%◌, ◌^◌, ◌≡◌, refl, true, arith, bit_or, u64, bit_and_mask, bit_or_split,
}
use craybond_os.Paging.{frame_of, is_valid, block_attr, page_attr}
use craybond_os.Paging.Tables.{is_end, frame_of_lem}

-- The lowest two bits of `a | b`.
or_low_bits : (a b : ℕ) → b % 4 ≡ 1 → a % 4 ≡ 0 → bit_or a b % 4 ≡ 1
or_low_bits a b p q = omega (arith, bit_or_split a b, bit_or_split (a / 2) (b / 2))

or_four : (a b : ℕ) → b % 4 ≡ 0 → a % 4 ≡ 0 → bit_or a b % 4 ≡ 0
or_four a b p q = omega (arith, bit_or_split a b, bit_or_split (a / 2) (b / 2))

or_odd : (a b : ℕ) → b % 2 ≡ 1 → bit_or a b % 2 ≡ 1
or_odd a b p = omega (arith, bit_or_split a b)

odd_valid : (x : ℕ) → x % 2 ≡ 1 → is_valid x ≡ true
odd_valid x p = rw (bit_and_mask 1 x, p) refl

frame_low : (pa : ℕ) → frame_of pa % 4 ≡ 0
frame_low pa = omega (arith, frame_of_lem pa)

block_bits : (pa attr : ℕ) → bit_or (frame_of pa) (block_attr attr) % 4 ≡ 1
block_bits pa attr =
    or_low_bits (frame_of pa) (block_attr attr)
      (or_low_bits (bit_or (2 ^ 10 + 3 * 2 ^ 8) (u64 (attr * 4))) 1 refl
        (or_four (2 ^ 10 + 3 * 2 ^ 8) (u64 (attr * 4)) (omega arith) refl))
      (frame_low pa)

pub block_valid : (pa attr : ℕ) → is_valid (bit_or (frame_of pa) (block_attr attr)) ≡ true
block_valid pa attr =
    odd_valid (bit_or (frame_of pa) (block_attr attr)) (omega (arith, block_bits pa attr))

pub block_end : (pa attr : ℕ) → is_end 1 (bit_or (frame_of pa) (block_attr attr)) ≡ true
block_end pa attr =
    rw (bit_and_mask 2 (bit_or (frame_of pa) (block_attr attr)), block_bits pa attr) refl

pub page_valid :
    (pa uxn permission attr : ℕ)
    → is_valid (bit_or (frame_of pa) (page_attr uxn permission attr)) ≡ true
page_valid pa uxn permission attr =
    odd_valid (bit_or (frame_of pa) (page_attr uxn permission attr)) (
      or_odd (frame_of pa) (page_attr uxn permission attr) (
        or_odd
          (bit_or (bit_or (bit_or uxn (2 ^ 10 + 3 * 2 ^ 8)) (u64 (permission * 2 ^ 6)))
            (u64 (attr * 4)))
          3 refl))

pub proc_page_valid : (pa : ℕ) → is_valid (bit_or (frame_of pa) 0x407) ≡ true
proc_page_valid pa = odd_valid (bit_or (frame_of pa) 0x407) (or_odd (frame_of pa) 0x407 refl)
